-- ===== src/Examples.antt =====
-- Concrete data for the examples: keys that are numbers, a layout of the log records, a storage, a
-- cache, a log, a version manager and a monitor.
pub mod Pages
pub mod Storage
pub mod Cache
pub mod Versions
pub mod Log
pub mod Queue
pub mod Health
pub mod Tree
pub mod Leaves
pub mod Jobs
pub mod Checkpoints
pub mod Figures
pub mod Redo
pub mod Fractions
pub mod Threads
pub mod Closing
use custom_database.Base.{
  ℕ, zero, suc, ◌+◌, ◌≡◌, refl, String, Bool, true, false, List, [], ◌∷◌, ◌++◌, ltb, ℕ_discrete,
  length, arith, take, ap,
}
use custom_database.Memory.{Memory}
use custom_database.Page.{KeyType, Page, PageHeader}
use custom_database.Wal.{
  Layout, RecordType, RecordHeader, DataRecord, insert, delete, update, checkpoint, commit, abort,
  unknown,
}

abbrev sum : List ℕ → ℕ
sum [] = 0
sum (b ∷ bs) = b + sum bs

abbrev digit : ℕ → String
digit zero = "0"
digit (suc zero) = "1"
digit (suc (suc zero)) = "2"
digit n = "many"

abbrev pub keys : KeyType ℕ
keys = record {
  key_bytes = λ k. k ∷ [];
  less = ltb;
  key_dec = ℕ_discrete;
  hasher = sum;
  to_string = digit;
}

abbrev pub raw_header : PageHeader
raw_header = record {
  page_id = 7;
  num_slots = 0;
  free_space_offset = 0;
  free_space_size = 4096;
  checksum = "";
  content_hash = "";
  flags = 0;
}

abbrev pub leaf : List ℕ → List ℕ → Page ℕ
leaf ks bytes = record {
  header = raw_header;
  is_leaf = true;
  keys = ks;
  children = [];
  slot_directory = [];
  bytes = bytes;
}

abbrev pub memory : Memory ℕ
memory = record { pages = λ a. leaf [] []; next = 3 }

abbrev type_code : RecordType → ℕ
type_code insert = 0
type_code delete = 1
type_code update = 2
type_code checkpoint = 3
type_code commit = 4
type_code abort = 5
type_code (unknown n) = suc (suc (suc (suc (suc (suc n)))))

abbrev of_code : ℕ → RecordType
of_code zero = insert
of_code (suc zero) = delete
of_code (suc (suc zero)) = update
of_code (suc (suc (suc zero))) = checkpoint
of_code (suc (suc (suc (suc zero)))) = commit
of_code (suc (suc (suc (suc (suc zero))))) = abort
of_code (suc (suc (suc (suc (suc (suc n)))))) = unknown n

of_code-type_code : (t : RecordType) → of_code (type_code t) ≡ t
of_code-type_code insert = refl
of_code-type_code delete = refl
of_code-type_code update = refl
of_code-type_code checkpoint = refl
of_code-type_code commit = refl
of_code-type_code abort = refl
of_code-type_code (unknown n) = refl

header_fields : RecordHeader → List ℕ
header_fields h =
    type_code h.type ∷ h.record_size ∷ h.transaction_id ∷ h.lsn ∷ h.checksum ∷ h.timestamp ∷ []

abbrev blank : RecordHeader
blank = record {
  type = insert;
  record_size = 0;
  transaction_id = 0;
  lsn = 0;
  checksum = 0;
  timestamp = 0;
}

of_fields : List ℕ → RecordHeader
of_fields (type ∷ size ∷ txn ∷ lsn ∷ sum ∷ time ∷ rest) = record {
  type = of_code type;
  record_size = size;
  transaction_id = txn;
  lsn = lsn;
  checksum = sum;
  timestamp = time;
}
of_fields bytes = blank

unfoldable pub fields : Layout ℕ
unfolding header_fields of_fields of_code-type_code
fields = record {
  header_size = 6;
  data_size = 9;
  key_size = 1;
  header_bytes = header_fields;
  data_bytes = λ r. header_fields r.header ++ (r.page_id ∷ 0 ∷ r.key ∷ []);
  read_header = of_fields;
  header_size_pos = omega arith;
  data_size_le = omega arith;
  length-header_bytes = λ h. refl;
  length-data_bytes = λ r. refl;
  read-header_bytes = λ h. ap (λ t. record h { type = t }) (of_code-type_code h.type);
  header_first = λ r. refl;
}
