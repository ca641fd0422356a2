-- ===== src/ParseTree.antt =====
-- The nodes of text/template/parse, the tree of a parsed template, as pkg/provisioners/template.go
-- sees it. A pointer to a list or a pipe may be nil.
use service_broker_k8s.Base.{String, List}

mutual
  -- `parse.Node`; `leaf` is any other kind of node, with its kind and its text.
  pub data Node : Type 0 where
    no_node : Node
    action_node : Pipe → Node
    branch_node : Pipe → Listing → Listing → Node
    command_node : Nodes → Node
    if_node : Pipe → Listing → Listing → Node
    list_node : Listing → Node
    pipe_node : Pipe → Node
    range_node : Pipe → Listing → Listing → Node
    with_node : Pipe → Listing → Listing → Node
    identifier_node : String → Node
    leaf : (kind text : String) → Node

  -- `[]parse.Node`
  pub data Nodes : Type 0 where
    no_nodes : Nodes
    add_node : Node → Nodes → Nodes

  -- `*parse.ListNode`
  pub data Listing : Type 0 where
    nil_list : Listing
    list_of : Nodes → Listing

  -- `*parse.PipeNode`, by the variables that it declares and its commands.
  pub data Pipe : Type 0 where
    nil_pipe : Pipe
    pipe_of : (decl : List String) → Commands → Pipe

  -- `[]*parse.CommandNode`, each by its arguments.
  pub data Commands : Type 0 where
    no_commands : Commands
    add_command : Nodes → Commands → Commands
