-- ===== src/Store/Database.antt =====
-- The package rocksdb as the code calls it, and the parts of serde_json that turn records into bytes.
use pccs_rs.Common.{◌≡◌, List, [], ◌∷◌, Option, none, some, if◌then◌else◌}
use pccs_rs.Common.Text.{Text, text_eq}

-- What a batch holds.
pub data Op : Type 0 where
  put : Text → Text → Op
  delete : Text → Op

-- `get_pinned`, `write` of a batch (`put` and `delete` are batches of one) and `iterator` from a key
-- on; `none` is an error of the database, which leaves a batch unwritten.
pub record Database : Type 1 where
  pub State : Type 0
  pub get : State → Text → Option (Option Text)
  pub write : State → List Op → Option State
  pub iterator : State → Text → List (Option (Text × Text))

-- What a key holds after a batch: the last operation on it counts.
abbrev pub after : List Op → Text → Option Text → Option Text
after [] key old = old
after (put k v ∷ ops) key old = after ops key (if text_eq k key then some v else old)
after (delete k ∷ ops) key old = after ops key (if text_eq k key then none else old)

-- The documented behaviour where no read fails: `content` is what the database holds.
pub record Reliable (D : Database) : Type 0 where
  pub content : D.State → Text → Option Text
  pub get-content : (s : D.State) (key : Text) → D.get s key ≡ some (content s key)
  pub content-write :
      (s s' : D.State) (ops : List Op) (key : Text)
      → D.write s ops ≡ some s'
      → content s' key ≡ after ops key (content s key)

-- `serde_json::to_vec` and `from_slice` at one type.
pub record Codec (A : Type 0) : Type 0 where
  pub to_vec : A → Option Text
  pub from_slice : Text → Option A

-- What is written is read back.
pub record RoundTrips {A : Type 0} (C : Codec A) : Type 0 where
  pub back : (a : A) (bytes : Text) → C.to_vec a ≡ some bytes → C.from_slice bytes ≡ some a
