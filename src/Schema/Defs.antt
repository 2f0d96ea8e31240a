-- ===== src/Schema/Defs.antt =====
-- The static functions `get_pb_descriptors` and `serialize_fd_set` (`SerializeFdSet` in
-- FoxgloveServer.cpp). The descriptors are the protobuf library's: `FilePool` is what is read of
-- them. A set of descriptors is the list of its files; its bytes are the library's.
use drivebrain_software.Base.{
  ℕ, zero, suc, String, List, [], ◌∷◌, ◌++◌, Bool, false, ◌||◌, Option, none, some, str_eq,
  if◌then◌else◌,
}

-- `google::protobuf::Descriptor`
pub record MessageType : Type 0 where
  pub name : String
  pub full_name : String

-- `google::protobuf::FileDescriptor` and `DescriptorPool::generated_pool()`
pub record FilePool : Type 1 where
  pub File : Type 0
  pub name : File → String
  pub dependencies : File → List File
  pub message_types : File → List MessageType
  pub find_file_by_name : String → Option File

-- Whether a text is in a set of texts.
unfoldable pub contains : String → List String → Bool
contains name [] = false
contains name (x ∷ xs) = str_eq x name || contains name xs

module _ (pool : FilePool) where
  open pool use {File, name, dependencies, find_file_by_name}

  -- A name that the pool does not have is left out.
  unfoldable pub get_pb_descriptors : List String → List File
  get_pb_descriptors [] = []
  get_pb_descriptors (file_name ∷ rest) = elim (find_file_by_name file_name) [
    | none ↦ get_pb_descriptors rest
    | some f ↦ f ∷ get_pb_descriptors rest
  ]

  -- The variables of `serialize_fd_set`; `fd_set` is the set so far, `seen` in the order of entry.
  pub record Walk : Type 0 where
    pub fd_set : List File
    pub to_add : List File
    pub seen : List String

  unfoldable pub visit : File → Walk → Walk
  unfolding contains
  visit dep w =
      if contains (name dep) w.seen
      then w
      else record w { to_add = w.to_add ++ (dep ∷ []); seen = w.seen ++ (name dep ∷ []) }

  -- The inner loop, over the dependencies of a file.
  unfoldable pub visit_all : List File → Walk → Walk
  unfolding visit
  visit_all [] w = w
  visit_all (dep ∷ deps) w = visit_all deps (visit dep w)

  -- One round of the outer loop, for the file at the front of the queue.
  unfoldable pub expand : File → List File → Walk → Walk
  unfolding visit_all
  expand next rest w =
      visit_all (dependencies next) (record w { fd_set = w.fd_set ++ (next ∷ []); to_add = rest })

  -- The outer loop; `none` means that the fuel ran out.
  unfoldable pub walk : ℕ → Walk → Option (List File)
  unfolding expand
  walk zero w = elim w.to_add [ [] ↦ some w.fd_set | _ ∷ _ ↦ none ]
  walk (suc fuel) w = elim w.to_add [
    | [] ↦ some w.fd_set
    | next ∷ rest ↦ walk fuel (expand next rest w)
  ]

  -- `serialize_fd_set` for a message of the file `top`.
  unfoldable pub serialize_fd_set : ℕ → File → Option (List File)
  unfolding walk
  serialize_fd_set fuel top = walk fuel (record { fd_set = []; to_add = top ∷ []; seen = [] })
