-- ===== src/Session/KvOffset.antt =====
-- core/src/session/offset.rs, `KVOffset`: where a header's name and value stand in the buffer.
use glaive.Prelude.{ℕ, Outcome, add_usize}
use glaive.Session.Offset
use glaive.Session.Offset.{Offset, Bytes}

pub record KvOffset : Type 0 where
  pub key : Offset
  pub value : Offset

unfoldable pub new : ℕ → ℕ → ℕ → ℕ → KvOffset
new key_start key_len value_start value_len = record {
  key = record { from = key_start; to = add_usize key_start key_len };
  value = record { from = value_start; to = add_usize value_start value_len };
}

unfoldable pub get_key : KvOffset → Bytes → Outcome Bytes
unfolding Offset.get
get_key kv buf = Offset.get kv.key buf

unfoldable pub get_value : KvOffset → Bytes → Outcome Bytes
unfolding Offset.get
get_value kv buf = Offset.get kv.value buf

unfoldable pub get_key_bytes : KvOffset → Bytes → Outcome Bytes
unfolding Offset.get_bytes
get_key_bytes kv buf = Offset.get_bytes kv.key buf

unfoldable pub get_value_bytes : KvOffset → Bytes → Outcome Bytes
unfolding Offset.get_bytes
get_value_bytes kv buf = Offset.get_bytes kv.value buf
