-- ===== src/CommandQueue.antt =====
-- crates/opca-core/src/services/command_queue.rs: writes to the vault that are queued, collapsed and
-- flushed together.
pub mod Collapse
pub mod Flush
use op_ca.Prelude.{
  ℕ, zero, suc, String, Bool, true, false, Option, none, some, List, [], ◌∷◌, ◌++◌, Result, ok, err,
  length, ◌==◌, str_eq, if◌then◌else◌,
}
use op_ca.Vault.{OpError, Vault, Call, ◌>>=◌, ◌>>◌, pure, put_document}

pub data QueueOp : Type 0 where
  store_item store_document rename_item delete_item : QueueOp

pub record QueuePayload : Type 0 where
  pub action : String
  pub attributes : List String
  pub filename : String
  pub content : String
  pub dst_title : String
  pub archive : Bool
  pub category : String

-- `QueuePayload::default`
abbrev pub default_payload : QueuePayload
default_payload = record {
  action = "auto";
  attributes = [];
  filename = "";
  content = "";
  dst_title = "";
  archive = true;
  category = "";
}

pub record QueuedCommand : Type 0 where
  pub operation : QueueOp
  pub target_type : String
  pub target_id : String
  pub payload : QueuePayload

pub record FlushResult : Type 0 where
  pub operation : QueueOp
  pub target_id : String
  pub success : Bool
  pub error : Option OpError

abbrev pub CommandQueue : Type 0
CommandQueue = List QueuedCommand

abbrev pub new_queue : CommandQueue
new_queue = []

unfoldable pub pending_count : CommandQueue → ℕ
pending_count queue = length queue

unfoldable pub enqueue : QueuedCommand → CommandQueue → CommandQueue
enqueue command queue = queue ++ command ∷ []

unfoldable pub enqueue_store_item :
    String → List String → String → String → String → CommandQueue → CommandQueue
enqueue_store_item target_id attributes target_type action category = enqueue (record {
  operation = QueueOp.store_item;
  target_type = target_type;
  target_id = target_id;
  payload = record default_payload {
    action = action;
    attributes = attributes;
    category = category;
  };
})

unfoldable pub enqueue_store_document :
    String → String → String → String → String → CommandQueue → CommandQueue
enqueue_store_document target_id filename content target_type action = enqueue (record {
  operation = QueueOp.store_document;
  target_type = target_type;
  target_id = target_id;
  payload = record default_payload { action = action; filename = filename; content = content };
})

unfoldable pub enqueue_rename_item : String → String → CommandQueue → CommandQueue
enqueue_rename_item src_title dst_title = enqueue (record {
  operation = QueueOp.rename_item;
  target_type = "certbundle";
  target_id = src_title;
  payload = record default_payload { dst_title = dst_title };
})

unfoldable pub enqueue_delete_item : String → Bool → CommandQueue → CommandQueue
enqueue_delete_item target_id archive = enqueue (record {
  operation = QueueOp.delete_item;
  target_type = "certbundle";
  target_id = target_id;
  payload = record default_payload { archive = archive };
})

abbrev pub is_document : QueuedCommand → Bool
is_document c = elim c.operation [ QueueOp.store_document ↦ true | _ ↦ false ]

-- A `HashMap` from targets to indices: the newest entry of a target stands first.
abbrev pub Indices : Type 0
Indices = List (String × ℕ)

unfoldable pub index_of : String → Indices → Option ℕ
index_of target [] = none
index_of target ((t, i) ∷ m) = if str_eq t target then some i else index_of target m

-- The last index of each target's documents; `i` is the first command's.
unfoldable pub last_store_doc : ℕ → CommandQueue → Indices → Indices
last_store_doc i [] m = m
last_store_doc i (c ∷ cs) m =
    last_store_doc (suc i) cs (if is_document c then (c.target_id, i) ∷ m else m)

abbrev pub is_index : Option ℕ → ℕ → Bool
is_index none i = false
is_index (some k) i = k == i

unfoldable pub keep : Indices → ℕ → CommandQueue → CommandQueue
keep m i [] = []
keep m i (c ∷ cs) =
    let rest = keep m (suc i) cs in
    if is_document c
    then (if is_index (index_of c.target_id m) i then c ∷ rest else rest)
    else c ∷ rest

unfoldable pub collapse_queue : CommandQueue → CommandQueue
collapse_queue queue = keep (last_store_doc 0 queue []) 0 queue

pub data StoreAction : Type 0 where
  auto create edit : StoreAction

unfoldable pub parse_store_action : String → StoreAction
parse_store_action s =
    if str_eq s "create"
    then StoreAction.create
    else if str_eq s "edit"
    then StoreAction.edit
    else StoreAction.auto

-- The first error of the attributes, or all of them parsed.
unfoldable pub assignments : (v : Vault) → List String → Result OpError (List v.Assignment)
assignments v [] = ok []
assignments v (token ∷ tokens) = elim (v.parse_assignment token) [
  | err e ↦ err e
  | ok a ↦ elim (assignments v tokens) [ err e ↦ err e | ok rest ↦ ok (a ∷ rest) ]
]

unfoldable pub wants_edit : (v : Vault) → StoreAction → String → Call v.World Bool
wants_edit v StoreAction.create title = pure false
wants_edit v StoreAction.edit title = pure true
wants_edit v StoreAction.auto title = v.item_exists title

unfoldable pub write_item :
    (v : Vault) → QueuedCommand → List v.Assignment → Bool → Call v.World (Unit {0})
write_item v c fields true = v.edit_item c.target_id fields
write_item v c fields false = do made ← v.create_item c.target_id c.payload.category fields; pure tt

unfoldable pub execute_store_item : (v : Vault) → QueuedCommand → Call v.World (Unit {0})
execute_store_item v c w = elim (assignments v c.payload.attributes) [
  | err e ↦ (err e, w)
  | ok fields ↦
      (wants_edit v (parse_store_action c.payload.action) c.target_id >>= write_item v c fields) w
]

unfoldable pub execute_store_document :
    (v : Vault) → StoreAction → QueuedCommand → Call v.World (Unit {0})
execute_store_document v StoreAction.create c =
    v.create_document c.target_id c.payload.filename c.payload.content
execute_store_document v StoreAction.edit c =
    v.edit_document c.target_id c.payload.filename c.payload.content
execute_store_document v StoreAction.auto c =
    put_document v c.target_id c.payload.filename c.payload.content

unfoldable pub execute : (v : Vault) → QueuedCommand → Call v.World (Unit {0})
execute v c = elim c.operation [
  | QueueOp.store_item ↦ execute_store_item v c
  | QueueOp.store_document ↦ execute_store_document v (parse_store_action c.payload.action) c
  | QueueOp.rename_item ↦ v.rename_item c.target_id c.payload.dst_title
  | QueueOp.delete_item ↦
      if c.payload.archive then v.delete_item c.target_id else v.delete_item_permanently c.target_id
]

abbrev pub result_of : QueuedCommand → Result OpError (Unit {0}) → FlushResult
result_of c (ok u) = record {
  operation = c.operation;
  target_id = c.target_id;
  success = true;
  error = none;
}
result_of c (err e) = record {
  operation = c.operation;
  target_id = c.target_id;
  success = false;
  error = some e;
}

unfoldable pub execute_all : (v : Vault) → CommandQueue → v.World → List FlushResult × v.World
execute_all v [] w = ([], w)
execute_all v (c ∷ cs) w =
    let (answer, w') = execute v c w in
    let (results, w'') = execute_all v cs w' in (result_of c answer ∷ results, w'')

-- The results, the queue and the vault that `flush` leaves.
unfoldable pub flush :
    (v : Vault) → CommandQueue → v.World → List FlushResult × CommandQueue × v.World
flush v [] w = ([], [], w)
flush v (c ∷ cs) w =
    let (results, w') = execute_all v (collapse_queue (c ∷ cs)) w in (results, [], w')

unfoldable pub clear : CommandQueue → CommandQueue
clear queue = []
