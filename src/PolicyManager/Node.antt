-- ===== src/PolicyManager/Node.antt =====
-- policy_manager/node.c: the list of policy files, sorted by priority. Jansson, the file system and
-- the clock are parameters.
pub mod Order
pub mod Names
pub mod Removal
use neat.Base.{
  String, same_string, ℕ, ◌+◌, ◌%◌, ◌^◌, ℤ, to_word, Bool, true, false, not, ◌&&◌, List, [], ◌∷◌,
  ◌++◌, Option, none, some, ltb, leb, ◌==◌, if◌then◌else◌,
}

-- The part of Jansson that node.c calls; `none` is NULL.
pub record Jansson : Type 1 where
  pub Json : Type 0
  pub object_get : Option Json → String → Option Json
  pub integer_value : Option Json → ℤ
  pub string_value : Option Json → Option String

-- "priority" and "uid".
abbrev pub priority_key : String
priority_key = 112 ∷ 114 ∷ 105 ∷ 111 ∷ 114 ∷ 105 ∷ 116 ∷ 121 ∷ []

abbrev pub uid_key : String
uid_key = 117 ∷ 105 ∷ 100 ∷ []

-- The `int` that a value is converted to, by its place in the order of the ints.
abbrev pub int_place : ℤ → ℕ
int_place z = (to_word 32 z + 2 ^ 31) % 2 ^ 32

module _ (J : Jansson) where
  -- `node_t`; the list of nodes is a list.
  pub record Node : Type 0 where
    pub filename : String
    pub last_updated : ℕ
    pub json : Option J.Json

  -- The files at the time of a call: what `load_json_file` and `file_edit_time` answer, and the time.
  pub record Files : Type 0 where
    pub load_json_file : String → Option J.Json
    pub file_edit_time : String → ℕ
    pub now : ℕ

  abbrev pub priority : Node → ℕ
  priority node = int_place (J.integer_value (J.object_get node.json priority_key))

  unfoldable pub update_node_content : Files → Node → Option J.Json → Node
  update_node_content files node none = node
  update_node_content files node (some json) = record node {
    json = some json;
    last_updated = files.now;
  }

  -- `calloc` succeeds if `allocates`.
  unfoldable pub create_node : Files → String → Bool → Option Node
  unfolding update_node_content
  create_node files file_path allocates = elim (files.load_json_file file_path) [
    | none ↦ none
    | some json ↦
        if allocates
        then some (
            update_node_content files
              (record { filename = file_path; last_updated = 0; json = none }) (some json))
        else none
  ]

  unfoldable pub has_node : List Node → String → Bool
  unfolding same_string
  has_node [] file_path = false
  has_node (n ∷ l) file_path =
      if same_string n.filename file_path then true else has_node l file_path

  unfoldable pub get_node : List Node → String → Option Node
  unfolding same_string
  get_node [] file_path = none
  get_node (n ∷ l) file_path =
      if same_string n.filename file_path then some n else get_node l file_path

  -- The outer option is none if strcmp is called on NULL: on a node without a uid.
  unfoldable pub get_node_by_uid : List Node → String → Option (Option Node)
  unfolding same_string
  get_node_by_uid [] uid = some none
  get_node_by_uid (n ∷ l) uid = elim (J.string_value (J.object_get n.json uid_key)) [
    | none ↦ none
    | some current_uid ↦
        let rest = get_node_by_uid l uid in
        if same_string current_uid uid then some (some n) else rest
  ]

  -- The walk of `add_node` behind a node whose priority is not greater.
  unfoldable pub insert_behind : List Node → Node → List Node
  insert_behind [] node = node ∷ []
  insert_behind (n ∷ l) node =
      if ltb (priority node) (priority n) then node ∷ n ∷ l else n ∷ insert_behind l node

  unfoldable pub add_node : List Node → Option Node → List Node
  unfolding insert_behind
  add_node head none = head
  add_node [] (some node) = node ∷ []
  add_node (h ∷ l) (some node) =
      if ltb (priority node) (priority h) then node ∷ h ∷ l else h ∷ insert_behind l node

  unfoldable pub remove_node : List Node → String → List Node
  unfolding same_string
  remove_node [] file_path = []
  remove_node (n ∷ l) file_path =
      if same_string n.filename file_path then l else n ∷ remove_node l file_path

  -- The node of a file that may have changed.
  abbrev pub refreshed : Files → Node → String → Node
  refreshed files n file_path =
      if leb n.last_updated (files.file_edit_time file_path)
      then update_node_content files n (files.load_json_file file_path)
      else n

  -- The node of a file, updated in place if the file is not older than it; none if there is no node.
  unfoldable pub update_in_place : Files → List Node → String → Option (List Node)
  unfolding same_string update_node_content
  update_in_place files [] file_path = none
  update_in_place files (n ∷ l) file_path =
      if same_string n.filename file_path
      then some (refreshed files n file_path ∷ l)
      else elim (update_in_place files l file_path) [ none ↦ none | some l' ↦ some (n ∷ l') ]

  unfoldable pub update_node : Files → List Node → String → Bool → List Node
  unfolding update_in_place add_node create_node
  update_node files head file_path allocates = elim (update_in_place files head file_path) [
    | some l ↦ l
    | none ↦ add_node head (create_node files file_path allocates)
  ]

  -- The walk over the directory: each entry with whether it is a regular file and whether calloc
  -- succeeds for it.
  unfoldable pub read_entries : Files → List Node → String → List (String × Bool × Bool) → List Node
  unfolding update_node
  read_entries files head dir_path [] = head
  read_entries files head dir_path ((name, regular, allocates) ∷ es) =
      read_entries files
        (if regular then update_node files head (dir_path ++ name) allocates else head) dir_path es

  -- `none`: the directory cannot be opened.
  unfoldable pub read_modified_files :
      Files → List Node → String → Option (List (String × Bool × Bool)) → List Node
  unfolding read_entries
  read_modified_files files head dir_path none = []
  read_modified_files files head dir_path (some es) = read_entries files head dir_path es
