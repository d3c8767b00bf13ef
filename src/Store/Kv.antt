-- ===== src/Store/Kv.antt =====
-- What store.rs takes from `lightning`: the `KVStore` that it writes to, here the one namespace that
-- it uses, and the encoding of the records, which `Store.Encoding` gives. Both are parameters, with
-- their laws apart.
use libbtcwallet.Base.{◌≡◌, ◌⊎◌, Option, some, List, [], ◌∷◌, Bytes, beq, if◌then◌else◌}
use libbtcwallet.Store.{IdExternals, TxMetadata}

-- `none` is an error, which the code turns into a panic.
pub record KvStore : Type 1 where
  pub State : Type 0
  pub list : State → Option (List Bytes)
  pub read : State → Bytes → Option Bytes
  pub write : State → Bytes → Bytes → Option State

-- `metadata.encode()` and `Readable::read`
pub record Codec (x : IdExternals) : Type 0 where
  pub encode : TxMetadata x → Bytes
  pub decode : Bytes → Option (TxMetadata x)

abbrev pub Occurs : Bytes → List Bytes → Type 0
Occurs k [] = ⊥
Occurs k (j ∷ l) = (j ≡ k) ⊎ Occurs k l

-- A store that answers reads by the last write, and lists the keys that can be read.
pub record KvLaws (kv : KvStore) : Type 0 where
  pub read-write :
      (s t : kv.State) (k j v : Bytes)
      → kv.write s k v ≡ some t
      → kv.read t j ≡ (if beq k j then some v else kv.read s j)
  pub listed :
      (s : kv.State) (k v : Bytes) (l : List Bytes)
      → kv.list s ≡ some l
      → kv.read s k ≡ some v
      → Occurs k l
  pub readable :
      (s : kv.State) (k : Bytes) (l : List Bytes)
      → kv.list s ≡ some l
      → Occurs k l
      → (v : Bytes) × (kv.read s k ≡ some v)
  pub lists : (s : kv.State) → (l : List Bytes) × (kv.list s ≡ some l)

pub record CodecLaws {x : IdExternals} (codec : Codec x) : Type 0 where
  pub decode-encode : (m : TxMetadata x) → codec.decode (codec.encode m) ≡ some m
