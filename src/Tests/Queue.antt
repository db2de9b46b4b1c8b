-- ===== src/Tests/Queue.antt =====
-- The theorems of the command queue at a concrete queue and vault.
use op_ca.Prelude.{
  ◌≡◌, refl, String, not, List, [], ◌∷◌, ok, err, any, filter, str_eq, if◌then◌else◌,
}
use op_ca.Vault.{Vault, item_not_found, put_document}
use op_ca.CommandQueue.{
  CommandQueue, new_queue, enqueue, enqueue_store_document, enqueue_rename_item, is_document,
  collapse_queue, execute_all, flush, execute, execute_store_document, parse_store_action,
  last_store_doc, index_of, keep,
}
use op_ca.CommandQueue.Collapse.{
  is_document_of, keep_last, last_only, collapse_queue-keep_last, collapse_queue_lem,
}
use op_ca.CommandQueue.Flush.{Ran, flush_lem}

abbrev queue : CommandQueue
queue = enqueue_store_document "CRL" "crl.pem" "v2" "crl" "auto" (
    enqueue_rename_item "CRL" "Old" (
      enqueue_store_document "DB" "db.sql" "x" "database" "auto"
        (enqueue_store_document "CRL" "crl.pem" "v1" "crl" "auto" new_queue)))

-- The contents and titles of the documents, the newest first.
abbrev vault : Vault
vault = record {
  World = List (String × String);
  Assignment = String;
  parse_assignment = λ token. ok token;
  item_exists = λ title w. (ok (any (λ d. str_eq d.0 title) w), w);
  create_item = λ title category fields w. (ok (record { id = []; created_at = [] }), w);
  edit_item = λ title fields w. (err (item_not_found title), w);
  create_document = λ title file content w. (ok tt, (title, content) ∷ w);
  edit_document = λ title file content w.
      if any (λ d. str_eq d.0 title) w
      then (ok tt, (title, content) ∷ filter (λ d. not (str_eq d.0 title)) w)
      else (err (item_not_found title), w);
  rename_item = λ title new w. (err (item_not_found title), w);
  delete_item = λ title w. (ok tt, w);
  delete_item_permanently = λ title w. (ok tt, w);
}

collapses : collapse_queue queue ≡ keep_last queue
unfolding enqueue_store_document enqueue_rename_item enqueue collapse_queue last_store_doc keep
    index_of keep_last
collapses = refl

leaves : (flush vault queue []).2 ≡ ("CRL", "v2") ∷ ("DB", "x") ∷ []
unfolding enqueue_store_document enqueue_rename_item enqueue collapse_queue last_store_doc keep
    index_of flush execute_all execute execute_store_document parse_store_action put_document
leaves = refl

collapse_queue-keep_last_example : collapse_queue queue ≡ keep_last queue
collapse_queue-keep_last_example = collapse_queue-keep_last queue

collapse_queue_lem_example :
    (filter (is_document_of "CRL") (collapse_queue queue)
      ≡ last_only (filter (is_document_of "CRL") queue))
    × (filter (λ c. not (is_document c)) (collapse_queue queue)
        ≡ filter (λ c. not (is_document c)) queue)
collapse_queue_lem_example = collapse_queue_lem "CRL" queue

flush_lem_example :
    ((flush vault queue []).1 ≡ [])
    × Ran vault (keep_last queue) [] (flush vault queue []).0 (flush vault queue []).2
flush_lem_example = flush_lem vault queue []
