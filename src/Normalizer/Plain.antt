-- ===== src/Normalizer/Plain.antt =====
-- Texts taken as they are, dates in strokes, and hashes that show the time of sending: the witnesses
-- run on it.
use linkedin_hyper_v.Prelude.{String, false, none, if◌then◌else◌, str_eq}
use linkedin_hyper_v.Harvest.State.Strokes.{strokes}
use linkedin_hyper_v.Normalizer.{Script}
use linkedin_hyper_v.Normalizer.Json.{Json, Fields, Hashing}
use linkedin_hyper_v.Normalizer.TextOrder.{text_before}
use linkedin_hyper_v.Normalizer.Dates.{Pattern}
use linkedin_hyper_v.Normalizer.Keys.{Printing}

abbrev pub js : Script
js = record {
  collapse = λ t. t;
  trim = λ t. t;
  lower = λ t. t;
  upper = λ t. t;
  strip_keyboard = λ t. t;
  strip_download = λ t. t;
  is_temporary_id = λ t. false;
  size = λ t. 0;
  resolve = λ t. none;
  strip_slashes = λ t. t;
  strip_slash = λ t. t;
  profile_path = λ t. none;
  time_of = λ t. none;
  iso = strokes;
}

-- The time of sending of an object that has one.
abbrev sent_at_of : Fields → String
sent_at_of Fields.end = ""
sent_at_of (Fields.field k (Json.text t) rest) = if str_eq k "sentAt" then t else sent_at_of rest
sent_at_of (Fields.field k _ rest) = sent_at_of rest

abbrev shown : Json → String
shown (Json.object fields) = sent_at_of fields
shown _ = ""

abbrev pub hashing : Hashing
hashing = record { before = text_before; iso = strokes; stringify = shown; digest = λ t. t }

abbrev pub printing : Printing
printing = record { hashing = hashing; show = strokes }

abbrev pub patterns : Pattern
patterns = record { clock = λ t. none; read_local = λ t. none; year_before = λ t. t }
