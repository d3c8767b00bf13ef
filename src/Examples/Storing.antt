-- ===== src/Examples/Storing.antt =====
-- The theorems on the store, over a store in memory.
use libbtcwallet.Base.{
  some, false, Bytes, true, HashMap, List, ◌≡◌, inl, refl, [], ◌∷◌, ◌++◌, codes, done, fail, get,
  put, ◌>>=◌,
}
use libbtcwallet.Store.{
  PaymentId, lightning, incoming_lightning, payment, payment_triggering_transfer_to_non_custodial,
  TxMetadata,
}
use libbtcwallet.Store.Ids.{to_string, from_str, from_str-to_string}
use libbtcwallet.Store.Metadata.{
  TxMetadataStore, do_set, upsert, set_tx_caused_rebalance, mark_found, mark, triggering,
}
use libbtcwallet.Store.Synced.{IsSynced, writes-IsSynced}
use libbtcwallet.Store.Marks.{marked_once}
use libbtcwallet.Store.Refinement.{
  Command, upserting, marking, restarting, perform_all, view, execute_all, execute_all_refines,
}
use libbtcwallet.Examples.Toys.{ids, memory, bytes_key}
use libbtcwallet.Examples.Coding.{coding, coding-CodecLaws, ids-IdLaws, memory-KvLaws}

abbrev empty_store : TxMetadataStore ids memory
empty_store = record { tx_metadata = []; store = [] }

abbrev id : PaymentId ids
id = lightning (5 ∷ [])

abbrev metadata : TxMetadata ids
metadata = record { time = 9; ty = payment incoming_lightning }

abbrev marked_metadata : TxMetadata ids
marked_metadata = record {
  time = 9;
  ty = payment_triggering_transfer_to_non_custodial incoming_lightning;
}

abbrev stored : TxMetadataStore ids memory
stored = record {
  tx_metadata = (id, metadata) ∷ [];
  store = (codes "LN-x" ++ 5 ∷ [], coding.encode metadata) ∷ [];
}

abbrev marked : TxMetadataStore ids memory
marked = record {
  tx_metadata = (id, marked_metadata) ∷ [];
  store = (codes "LN-x" ++ 5 ∷ [], coding.encode marked_metadata) ∷ [];
}

from_str-to_string_example : from_str ids (to_string ids id) ≡ done id
from_str-to_string_example = from_str-to_string ids ids-IdLaws id

empty-IsSynced : IsSynced coding memory empty_store
unfolding get
empty-IsSynced = record { mirrored = λ i. refl; named = λ k v e. cc }

upserted : upsert coding memory empty_store id metadata ≡ done stored
unfolding upsert do_set to_string get put ◌>>=◌
upserted = refl

stored-IsSynced : IsSynced coding memory stored
stored-IsSynced =
    writes-IsSynced coding memory ids-IdLaws memory-KvLaws empty_store empty-IsSynced id metadata
      stored (inl upserted)

becomes_marked : set_tx_caused_rebalance coding memory stored id ≡ done marked
unfolding set_tx_caused_rebalance to_string mark_found mark triggering get put ◌>>=◌
becomes_marked = refl

marked_twice : set_tx_caused_rebalance coding memory marked id ≡ fail tt
marked_twice = marked_once coding memory stored marked id becomes_marked

put_in_memory :
    (st : HashMap Bytes Bytes) (k v : Bytes)
    → (st' : HashMap Bytes Bytes) × (memory.write st k v ≡ some st')
put_in_memory st k v = (put bytes_key st k v, refl)

abbrev commands : List (Command ids)
commands = upserting id metadata ∷ marking id ∷ restarting ∷ marking id ∷ []

-- The second mark fails, also after a restart.
promised_answers :
    (perform_all coding memory (view coding memory empty_store) commands).0
    ≡ true ∷ true ∷ true ∷ false ∷ []
unfolding perform_all
promised_answers = refl

execute_all_refines_example :
    (s' : TxMetadataStore ids memory) × (execute_all coding memory empty_store commands
      ≡ done ((perform_all coding memory (view coding memory empty_store) commands).0, s'))
    × IsSynced coding memory s'
    × (view coding memory s'
        ≡ (perform_all coding memory (view coding memory empty_store) commands).1)
execute_all_refines_example =
    execute_all_refines coding memory ids-IdLaws memory-KvLaws coding-CodecLaws put_in_memory
      empty_store commands empty-IsSynced
