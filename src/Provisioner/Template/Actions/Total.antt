-- ===== src/Provisioner/Template/Actions/Total.antt =====
-- transformActionsToJSON of pkg/provisioners/template.go: on which trees it ends, and what a panic
-- does to the rendering of a text.
use service_broker_k8s.Base.{◌≡◌, ◌↔◌, refl}
use service_broker_k8s.Errors.{Result, ok, panic, ◌>>=◌}
use service_broker_k8s.ParseTree.{
  Node, no_node, action_node, branch_node, command_node, if_node, list_node, pipe_node, range_node,
  with_node, identifier_node, leaf, Nodes, no_nodes, add_node, Listing, nil_list, list_of, Pipe,
  nil_pipe, pipe_of, Commands, no_commands, add_command,
}
use service_broker_k8s.Provisioner.Template.Actions.{
  transform_actions, transform_list, transform_nodes, transform_pipe, transform_commands,
}

unfoldable mutual
  -- A node below which each list and each pipe that the walk comes to is there.
  pub IsWhole : Node → Type 0
  IsWhole (branch_node p list else_list) = IsWholeList list × IsWholeList else_list
  IsWhole (command_node args) = AreWhole args
  IsWhole (if_node p list else_list) = IsWholeList list × IsWholeList else_list
  IsWhole (list_node list) = IsWholeList list
  IsWhole (pipe_node p) = IsWholePipe p
  IsWhole _ = Unit

  pub IsWholeList : Listing → Type 0
  IsWholeList nil_list = ⊥
  IsWholeList (list_of items) = AreWhole items

  pub AreWhole : Nodes → Type 0
  AreWhole no_nodes = Unit
  AreWhole (add_node n more) = IsWhole n × AreWhole more

  pub IsWholePipe : Pipe → Type 0
  IsWholePipe nil_pipe = ⊥
  IsWholePipe (pipe_of decl cmds) = AreWholeCommands cmds

  pub AreWholeCommands : Commands → Type 0
  AreWholeCommands no_commands = Unit
  AreWholeCommands (add_command args more) = AreWhole args × AreWholeCommands more

-- A result that is a value where `P` holds, and a panic where it does not.
data Decides (P : Type 0) {A : Type 0} (r : Result A) : Type 0 where
  ends : P → (a : A) → r ≡ ok a → Decides P r
  breaks : (P → ⊥) → r ≡ panic → Decides P r

module _ {A B : Type 0} {P : Type 0} where
  Decides-one : (f : A → B) (r : Result A) → Decides P r → Decides P (r >>= λ a. ok (f a))
  Decides-one f r (ends p a e) = ends p (f a) (rw e refl)
  Decides-one f r (breaks no_p e) = breaks no_p (rw e refl)

module _ {A B C : Type 0} {P Q : Type 0} where
  Decides-two :
      (f : A → B → C) (r : Result A) (r' : Result B)
      → Decides P r
      → Decides Q r'
      → Decides (P × Q) (r >>= λ a. r' >>= λ b. ok (f a b))
  Decides-two f r r' (ends p a e) (ends q b e') = ends (p, q) (f a b) (rw (e, e') refl)
  Decides-two f r r' (ends p a e) (breaks no_q e') = breaks (λ h. no_q h.1) (rw (e, e') refl)
  Decides-two f r r' (breaks no_p e) d = breaks (λ h. no_p h.0) (rw e refl)

mutual
  unfolding IsWhole IsWholeList AreWhole IsWholePipe AreWholeCommands transform_actions
      transform_list transform_nodes transform_pipe transform_commands

  node-Decides : (n : Node) → Decides (IsWhole n) (transform_actions n)
  node-Decides no_node = ends tt _ refl
  node-Decides (action_node p) = ends tt _ refl
  node-Decides (branch_node p l e) =
      Decides-two (branch_node p) (transform_list l) (transform_list e) (list-Decides l)
        (list-Decides e)
  node-Decides (command_node args) =
      Decides-one command_node (transform_nodes args) (nodes-Decides args)
  node-Decides (if_node p l e) =
      Decides-two (if_node p) (transform_list l) (transform_list e) (list-Decides l)
        (list-Decides e)
  node-Decides (list_node l) = Decides-one list_node (transform_list l) (list-Decides l)
  node-Decides (pipe_node p) = Decides-one pipe_node (transform_pipe p) (pipe-Decides p)
  node-Decides (range_node p l e) = ends tt _ refl
  node-Decides (with_node p l e) = ends tt _ refl
  node-Decides (identifier_node s) = ends tt _ refl
  node-Decides (leaf k s) = ends tt _ refl

  list-Decides : (l : Listing) → Decides (IsWholeList l) (transform_list l)
  list-Decides nil_list = breaks (λ h. h) refl
  list-Decides (list_of items) = Decides-one list_of (transform_nodes items) (nodes-Decides items)

  nodes-Decides : (ns : Nodes) → Decides (AreWhole ns) (transform_nodes ns)
  nodes-Decides no_nodes = ends tt _ refl
  nodes-Decides (add_node n more) =
      Decides-two add_node (transform_actions n) (transform_nodes more) (node-Decides n)
        (nodes-Decides more)

  pipe-Decides : (p : Pipe) → Decides (IsWholePipe p) (transform_pipe p)
  pipe-Decides nil_pipe = breaks (λ h. h) refl
  pipe-Decides (pipe_of decl cmds) =
      Decides-one (pipe_of decl) (transform_commands cmds) (commands-Decides cmds)

  commands-Decides : (cs : Commands) → Decides (AreWholeCommands cs) (transform_commands cs)
  commands-Decides no_commands = ends tt _ refl
  commands-Decides (add_command args more) =
      Decides-two add_command (transform_nodes args) (transform_commands more) (nodes-Decides args)
        (commands-Decides more)

panic_iff : {P A : Type 0} (r : Result A) → Decides P r → (r ≡ panic) ↔ (P → ⊥)
panic_iff r (ends p a e) = (λ h. cc, λ no_p. absurd (no_p p))
panic_iff r (breaks no_p e) = (λ h. no_p, λ h. e)

-- The walk over a template's tree ends in a panic exactly when it comes to a list or a pipe that is
-- nil, such as the missing list of an `if` without an `else`.
pub transform_list-panic_iff : (l : Listing) → (transform_list l ≡ panic) ↔ (IsWholeList l → ⊥)
transform_list-panic_iff l = panic_iff (transform_list l) (list-Decides l)
