-- ===== src/MessageRepository/Upsert/Data/Columns.antt =====
-- The columns of a message, as they are observed and written.
use linkedin_hyper_v.Prelude.{ℕ, String, Bool, Option}
use linkedin_hyper_v.Normalizer.Messages.{Raw}

-- `is_canonical` is `isCanonical !== false`; a confidence is `none` where it is no finite number.
pub record Observed : Type 0 where
  pub conversation_id : String
  pub account_id : String
  pub sender_id : String
  pub sender_name : String
  pub text : String
  pub sent_at : ℕ
  pub is_sent_by_me : Bool
  pub linkedin_message_id : Option String
  pub external_id : Option String
  pub dedupe_key : Option String
  pub content_hash : Option String
  pub raw : Option Raw
  pub source : String
  pub visibility_state : String
  pub is_canonical : Bool
  pub identity_confidence : Option ℕ
  pub sender_confidence : Option ℕ
  pub timestamp_confidence : Option ℕ
  pub observed_at : Option ℕ
  pub source_run_id : Option String

-- A value of an id's column: `undefined` leaves it as it is.
pub data Column : Type 0 where
  undefined : Column
  null : Column
  id : String → Column

-- The columns of a row that are written.
pub record RowData : Type 0 where
  pub conversation_id : String
  pub account_id : String
  pub external_id : Column
  pub dedupe_key : Column
  pub visibility_state : String
  pub is_canonical : Bool
  pub identity_confidence : ℕ
  pub sender_confidence : ℕ
  pub timestamp_confidence : ℕ
  pub observed_at : ℕ
  pub source_run_id : Option String
  pub sender_id : String
  pub sender_name : String
  pub text : String
  pub sent_at : ℕ
  pub is_sent_by_me : Bool
  pub linkedin_message_id : Option String
  pub content_hash : Option String
  pub source : String
  pub raw : Option Raw

-- What is kept of an observation, besides the row it was found to be.
pub record Observation : Type 0 where
  pub account_id : String
  pub conversation_id : String
  pub external_id : Option String
  pub sender_id : String
  pub sender_name : String
  pub text : String
  pub observed_at : ℕ
  pub sent_at : ℕ
  pub identity_confidence : ℕ
  pub sender_confidence : ℕ
  pub timestamp_confidence : ℕ
  pub visibility_state : String
  pub content_hash : String
  pub payload : Option Raw
  pub source : String
