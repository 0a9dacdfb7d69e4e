-- ===== src/Locker/Eager/Mirror/Puts.antt =====
-- A put of an eager locker keeps the mirror.
use crossbank.Prelude.{
  ◌≡◌, refl, ap, Bool, true, false, Option, none, some, arith, Bool-cases, inl, inr, length, ltb,
}
use crossbank.Error.{ok}
use crossbank.Error.{Error, >>=-eq-ok}
use crossbank.Bytes.{Bytes}
use crossbank.Codec.Chain.{FilterChain, seal}
use crossbank.Codec.RoundTrip.{AllInvert}
use crossbank.Locker.Inner.Value.{
  Postcard, to_payload, of_payload, or_unserialised, or_undecodable, encode_value,
}
use crossbank.Locker.Resident.{is_deferred}
use crossbank.Locker.Eager.{Locker}
use crossbank.Locker.Eager.Puts.{put_by, refused_if}
use crossbank.Locker.Eager.Mirror.{IsMirror}
use crossbank.Locker.Eager.Mirror.Landed.{Upholds, give-Upholds, ensure_open-Upholds}
use crossbank.Locker.Eager.Mirror.Writes.{put_deferred-Upholds, put_now-Upholds}

-- The serialization gives back the value, and the filters invert each other on its payload.
abbrev pub Returns : {T : Type 0} → Postcard T → FilterChain → T → Type 0
Returns postcard c value =
    (p : Bytes)
    → postcard.to_allocvec value ≡ some p
    → (postcard.from_bytes p ≡ some value) × AllInvert c.filters p

module _ {T : Type 0} (postcard : Postcard T) (l : Locker T) (t : IsMirror postcard l) where
  -- The serialization gives back the value.
  serialised :
      (value : T) (payload : Bytes)
      → Returns postcard l.res.inner.chain value
      → to_payload postcard value ≡ ok payload
      → (of_payload postcard payload ≡ ok value) × AllInvert l.res.inner.chain.filters payload
  unfolding to_payload of_payload
  serialised value payload back h =
      let (given, opens) = back payload (go (postcard.to_allocvec value) h) in
      (ap or_undecodable given, opens)
    where
      go : (x : Option Bytes) → or_unserialised x ≡ ok payload → x ≡ some payload
      go none h = unfold or_unserialised in absurd (ground arith)
      go (some p) h = unfold or_unserialised in ground arith

  pub put_by-Upholds :
      (key : Bytes) (value : T)
      → Returns postcard l.res.inner.chain value
      → Upholds postcard (put_by postcard key value l)
  unfolding put_by
  put_by-Upholds key value back = ensure_open-Upholds postcard l t _ (
      give-Upholds postcard l t (encode_value postcard l.res.inner.chain value) _ (λ sealed made.
        give-Upholds postcard l t (refused_if (ltb l.res.inner.config.max_inline (length sealed)) _)
          _
          (λ _ fits. elim (Bool-cases (is_deferred l.res)) [
            | inl late ↦ rw late (
                give-Upholds postcard l t (to_payload postcard value) _ (λ payload p.
                  let (given, opens) = serialised value payload back p in
                  put_deferred-Upholds postcard l t key payload value late opens given))
            | inr now ↦
                let (payload, p, s) = sealed_payload value sealed made in
                let (given, opens) = serialised value payload back p in
                rw now (
                  put_now-Upholds postcard l t now key payload sealed value opens s
                    (not_over (ltb l.res.inner.config.max_inline (length sealed)) _ fits) given)
          ])))
    where
      not_over : (over : Bool) (e : Error) → refused_if over e ≡ ok tt → over ≡ false
      not_over true e h = absurd (ground arith)
      not_over false e h = refl

      sealed_payload :
          (value : T) (sealed : Bytes)
          → encode_value postcard l.res.inner.chain value ≡ ok sealed
          → (payload : Bytes) × (to_payload postcard value ≡ ok payload)
            × (seal l.res.inner.chain payload ≡ ok sealed)
      sealed_payload value sealed h =
          unfold encode_value in
          >>=-eq-ok (to_payload postcard value) (seal l.res.inner.chain) {y = sealed} h
