-- ===== src/Server/Requests.antt =====
-- The bodies of the requests (src/relayer/src/types.rs): what `serde` makes of the JSON fields, with
-- the defaults. The JSON parser is a parameter; it gives the fields of an object.
use nautilus_memwal_relayer.Prelude.{ℕ, String, Option, none, some, List, [], ◌∷◌}
use nautilus_memwal_relayer.Types.{Embedding}
use nautilus_memwal_relayer.Routes.Remember.{RememberRequest, RememberManualRequest}
use nautilus_memwal_relayer.Routes.Recall.{RecallRequest, RecallManualRequest}
use nautilus_memwal_relayer.Routes.Bulk.{RememberBulkItem}
use nautilus_memwal_relayer.Routes.Analyze.{AnalyzeRequest}
use nautilus_memwal_relayer.Routes.Ask.{AskRequest}
use nautilus_memwal_relayer.Routes.Restore.{RestoreRequest}

-- A field that is not there, is `null`, has another type, or has a value
pub data Field (A : Type 0) : Type 0 where
  absent null ill_typed : Field A
  given : A → Field A

pub record ItemFields : Type 0 where
  pub text : Field String
  pub namespace : Field String

pub record Fields : Type 0 where
  pub text : Field String
  pub query : Field String
  pub question : Field String
  pub namespace : Field String
  pub encrypted_data : Field String
  pub limit : Field ℕ
  pub vector : Field Embedding
  pub items : Field (List ItemFields)

module _ {A : Type 0} where
  abbrev pub required : Field A → Option A
  required (given a) = some a
  required _ = none

  -- `#[serde(default = …)]`: `null` is no value.
  abbrev pub defaulted : A → Field A → Option A
  defaulted d absent = some d
  defaulted d (given a) = some a
  defaulted d _ = none

  -- A field of type `Option`
  abbrev pub optional : Field A → Option (Option A)
  optional absent = some none
  optional null = some none
  optional ill_typed = none
  optional (given a) = some (some a)

module _ {A B : Type 0} where
  infixl 10 ◌>>=◌
  abbrev pub ◌>>=◌ : Option A → (A → Option B) → Option B
  none >>= f = none
  some a >>= f = f a

abbrev pub default_limit : ℕ
default_limit = 10

abbrev pub default_namespace : String
default_namespace = "default"

abbrev pub default_restore_limit : ℕ
default_restore_limit = 50

unfoldable pub read_remember : Fields → Option RememberRequest
read_remember f = do
  text ← required f.text
  namespace ← defaulted default_namespace f.namespace
  some (record { text = text; namespace = namespace })

unfoldable pub read_item : ItemFields → Option RememberBulkItem
read_item f = do
  text ← required f.text
  namespace ← defaulted default_namespace f.namespace
  some (record { text = text; namespace = namespace })

unfoldable pub read_items : List ItemFields → Option (List RememberBulkItem)
unfolding read_item
read_items [] = some []
read_items (f ∷ fs) = do item ← read_item f; items ← read_items fs; some (item ∷ items)

unfoldable pub read_bulk : Fields → Option (List RememberBulkItem)
unfolding read_items
read_bulk f = do items ← required f.items; read_items items

unfoldable pub read_recall : Fields → Option RecallRequest
read_recall f = do
  query ← required f.query
  limit ← defaulted default_limit f.limit
  namespace ← defaulted default_namespace f.namespace
  some (record { query = query; limit = limit; namespace = namespace })

unfoldable pub read_analyze : Fields → Option AnalyzeRequest
read_analyze f = do
  text ← required f.text
  namespace ← defaulted default_namespace f.namespace
  some (record { text = text; namespace = namespace })

unfoldable pub read_remember_manual : Fields → Option RememberManualRequest
read_remember_manual f = do
  encrypted_data ← required f.encrypted_data
  vector ← required f.vector
  namespace ← defaulted default_namespace f.namespace
  some (record { encrypted_data = encrypted_data; vector = vector; namespace = namespace })

unfoldable pub read_recall_manual : Fields → Option RecallManualRequest
read_recall_manual f = do
  vector ← required f.vector
  limit ← defaulted default_limit f.limit
  namespace ← defaulted default_namespace f.namespace
  some (record { vector = vector; limit = limit; namespace = namespace })

unfoldable pub read_ask : Fields → Option AskRequest
read_ask f = do
  question ← required f.question
  limit ← optional f.limit
  namespace ← defaulted default_namespace f.namespace
  some (record { question = question; limit = limit; namespace = namespace })

unfoldable pub read_restore : Fields → Option RestoreRequest
read_restore f = do
  namespace ← required f.namespace
  limit ← defaulted default_restore_limit f.limit
  some (record { namespace = namespace; limit = limit })
