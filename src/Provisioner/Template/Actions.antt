-- ===== src/Provisioner/Template/Actions.antt =====
-- transformActionsToJSON of pkg/provisioners/template.go, over the parse tree of a template.
pub mod Total
use service_broker_k8s.Base.{String, List, [], ◌∷◌}
use service_broker_k8s.Errors.{Result, ok, err, panic, ◌>>=◌}
use service_broker_k8s.ParseTree.{
  Node, no_node, action_node, branch_node, command_node, if_node, list_node, pipe_node, range_node,
  with_node, identifier_node, leaf, Nodes, no_nodes, add_node, Listing, nil_list, list_of, Pipe,
  nil_pipe, pipe_of, Commands, no_commands, add_command,
}

-- The arguments of `jsonify`.
abbrev pub jsonify : Nodes
jsonify = add_node (identifier_node "json") no_nodes

-- `append(cmds, jsonify)`
unfoldable pub append_jsonify : Commands → Commands
append_jsonify no_commands = add_command jsonify no_commands
append_jsonify (add_command args more) = add_command args (append_jsonify more)

-- The case of an action: what is only assigned to a variable gives no text.
unfoldable pub transform_action : Pipe → Pipe
unfolding append_jsonify
transform_action nil_pipe = nil_pipe
transform_action (pipe_of [] cmds) = pipe_of [] (append_jsonify cmds)
transform_action (pipe_of (v ∷ vs) cmds) = pipe_of (v ∷ vs) cmds

unfoldable mutual
  unfolding transform_action

  -- `transformActionsToJSON`. A nil pointer in the interface is not nil, so its fields are read.
  pub transform_actions : Node → Result Node
  transform_actions (action_node p) = ok (action_node (transform_action p))
  transform_actions (branch_node p list else_list) = do
    list' ← transform_list list
    else_list' ← transform_list else_list
    ok (branch_node p list' else_list')
  transform_actions (command_node args) = do args' ← transform_nodes args; ok (command_node args')
  transform_actions (if_node p list else_list) = do
    list' ← transform_list list
    else_list' ← transform_list else_list
    ok (if_node p list' else_list')
  transform_actions (list_node list) = do list' ← transform_list list; ok (list_node list')
  transform_actions (pipe_node p) = do p' ← transform_pipe p; ok (pipe_node p')
  transform_actions n = ok n

  -- The case of a list.
  pub transform_list : Listing → Result Listing
  transform_list nil_list = panic
  transform_list (list_of items) = do items' ← transform_nodes items; ok (list_of items')

  pub transform_nodes : Nodes → Result Nodes
  transform_nodes no_nodes = ok no_nodes
  transform_nodes (add_node n more) = do
    n' ← transform_actions n
    more' ← transform_nodes more
    ok (add_node n' more')

  -- The case of a pipe.
  pub transform_pipe : Pipe → Result Pipe
  transform_pipe nil_pipe = panic
  transform_pipe (pipe_of decl cmds) = do cmds' ← transform_commands cmds; ok (pipe_of decl cmds')

  pub transform_commands : Commands → Result Commands
  transform_commands no_commands = ok no_commands
  transform_commands (add_command args more) = do
    args' ← transform_nodes args
    more' ← transform_commands more
    ok (add_command args' more')
