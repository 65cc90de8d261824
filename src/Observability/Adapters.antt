-- ===== src/Observability/Adapters.antt =====
-- observability/oteladapter and observability/slogadapter: how attributes and records are handed on to the
-- tracing and logging libraries, a call on which is a value.
use mkq.Prelude.{ℕ, Bool, List, [], ◌∷◌, Option, none, some, Bytes, ℤ}
use mkq.Failure.{Failure}

-- A resolved `slog.Value`; `other` is every further kind, by its text.
pub data SlogValue : Type 0 where
  kind_string : Bytes → SlogValue
  kind_int64 : ℤ → SlogValue
  kind_float64 : ℕ → SlogValue
  kind_bool : Bool → SlogValue
  other : Bytes → SlogValue

-- `attribute.KeyValue`.
pub data KeyValue : Type 0 where
  string : Bytes → Bytes → KeyValue
  int64 : Bytes → ℤ → KeyValue
  float64 : Bytes → ℕ → KeyValue
  bool : Bytes → Bool → KeyValue

unfoldable pub otel_attr : Bytes → SlogValue → KeyValue
otel_attr key (kind_string s) = string key s
otel_attr key (kind_int64 n) = int64 key n
otel_attr key (kind_float64 x) = float64 key x
otel_attr key (kind_bool b) = bool key b
otel_attr key (other s) = string key s

unfoldable pub to_otel_attrs : List (Bytes × SlogValue) → List KeyValue
unfolding otel_attr
to_otel_attrs [] = []
to_otel_attrs ((key, v) ∷ attrs) = otel_attr key v ∷ to_otel_attrs attrs

-- The calls on a span of OpenTelemetry.
pub data SpanCall : Type 0 where
  set_attributes : List KeyValue → SpanCall
  record_error : Failure → SpanCall
  set_status_error : Failure → SpanCall
  end_span : SpanCall

unfoldable pub span_set_attrs : List (Bytes × SlogValue) → List SpanCall
unfolding to_otel_attrs
span_set_attrs attrs = set_attributes (to_otel_attrs attrs) ∷ []

-- Without an error nothing happens.
unfoldable pub span_set_error : Option Failure → List SpanCall
span_set_error none = []
span_set_error (some e) = record_error e ∷ set_status_error e ∷ []

unfoldable pub span_end : List SpanCall
span_end = end_span ∷ []

pub data Level : Type 0 where
  debug info warn error : Level

-- `LogAttrs` of a logger of slog, `none` being `slog.Default()`.
pub record LogCall : Type 0 where
  pub logger : Option ℕ
  pub level : Level
  pub message : Bytes
  pub attrs : List (Bytes × SlogValue)

-- `New`, and the four methods, which differ in their levels.
unfoldable pub log_attrs : Option ℕ → Level → Bytes → List (Bytes × SlogValue) → LogCall
log_attrs logger level message attrs = record {
  logger = logger;
  level = level;
  message = message;
  attrs = attrs;
}
