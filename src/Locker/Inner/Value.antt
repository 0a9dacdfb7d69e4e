-- ===== src/Locker/Inner/Value.antt =====
-- Typed values: `encode` and `decode` of src/codec/value.rs, and `decode_record` and `load_value` of
-- src/locker/inner.rs. The serialization of the postcard crate is a parameter.
use crossbank.Prelude.{Bool, true, false, Option, none, some, if◌then◌else◌, ◌==◌}
use crossbank.Error.{Result, ok, err, corrupt, filter, serialisation, undecodable, ◌>>=◌}
use crossbank.Bytes.{Bytes}
use crossbank.Backend.Memory.{MemoryBackend}
use crossbank.Codec.Chain.{FilterChain, seal, unseal}
use crossbank.Locker.Chunk.{parse, is_pointer, flag_raw}
use crossbank.Locker.Inner.{Inner, fetch}
use crossbank.Locker.Inner.Read.{load_payload}

-- `to_allocvec` and `from_bytes` at a type of values, and `to_allocvec` at byte strings.
pub record Postcard (T : Type 0) : Type 0 where
  pub to_allocvec : T → Option Bytes
  pub from_bytes : Bytes → Option T
  pub wrap : Bytes → Option Bytes

unfoldable pub or_unserialised : Option Bytes → Result Bytes
or_unserialised none = err (filter serialisation)
or_unserialised (some payload) = ok payload

unfoldable pub or_undecodable : {T : Type 0} → Option T → Result T
or_undecodable none = err (corrupt undecodable)
or_undecodable (some value) = ok value

module _ {T : Type 0} (postcard : Postcard T) where
  unfoldable pub to_payload : T → Result Bytes
  unfolding or_unserialised
  to_payload value = or_unserialised (postcard.to_allocvec value)

  unfoldable pub of_payload : Bytes → Result T
  unfolding or_undecodable
  of_payload payload = or_undecodable (postcard.from_bytes payload)

  -- `codec::encode`, which is `Inner::seal`.
  unfoldable pub encode_value : FilterChain → T → Result Bytes
  unfolding to_payload
  encode_value c value = do payload ← to_payload value; seal c payload

  -- `codec::decode`, which is `Inner::open`.
  unfoldable pub decode_value : FilterChain → Bytes → Result T
  unfolding of_payload
  decode_value c stored = do payload ← unseal c stored; of_payload payload

  unfoldable pub is_raw : Bytes → Result Bool
  is_raw stored = do p ← parse stored; ok (p.flags == flag_raw)

  -- The payload of a value that was streamed is wrapped first.
  unfoldable pub of_stored : Bytes → Bool → Result T
  unfolding of_payload or_unserialised
  of_stored payload false = of_payload payload
  of_stored payload true = do wrapped ← or_unserialised (postcard.wrap payload); of_payload wrapped

  unfoldable pub decode_record : Inner → MemoryBackend → Bytes → Result T
  unfolding is_raw of_stored
  decode_record i b stored = do
    payload ← load_payload i b stored
    if is_pointer stored
        then (do raw ← is_raw stored; of_stored payload raw)
        else of_payload payload

  unfoldable pub decode_found : Inner → MemoryBackend → Option Bytes → Result (Option T)
  unfolding decode_record
  decode_found i b none = ok none
  decode_found i b (some raw) = do value ← decode_record i b raw; ok (some value)

  unfoldable pub load_value : Inner → MemoryBackend → Bytes → Result (Option T)
  unfolding decode_found
  load_value i b key = do raw ← fetch i b key; decode_found i b raw

  -- A staged payload that is decoded.
  unfoldable pub of_view : Option Bytes → Result (Option T)
  unfolding of_payload
  of_view none = ok none
  of_view (some payload) = do value ← of_payload payload; ok (some value)
