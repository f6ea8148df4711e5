-- ===== src/Network/Delivery.antt =====
-- A frame that `to_frame` has made, read by `read_frame` (blockchaincoin/network.py).
use blockchain_coin.Shared.{
  ℕ, ◌+◌, ◌^◌, ◌<◌, ◌≤◌, ◌≡◌, refl, ap, ◌∙◌, true, false, [], ◌∷◌, ◌++◌, length, take, drop, ltb,
  eqb, eqb_iff, length-append, take-append, append_assoc, Result, ok, raise_if, bind-eq-ok,
  raise_if-eq-ok, arith, subst,
}
use blockchain_coin.Text.{Bytes, text_eq, text_eq_iff}
use blockchain_coin.Codec.Words.{be_bytes, be_value, be_value-be_bytes, length-be_bytes}
use blockchain_coin.Network.Frames.{
  message_too_large, network_magic, max_message_size, Hmac, check_key, verify, frame_body, to_frame,
  size_of, frame_payload, read_payload, from_frame, read_frame,
}

take_exactly : (n : ℕ) (xs ys : Bytes) → length xs ≡ n → take n (xs ++ ys) ≡ xs
take_exactly n xs ys e = subst (λ m. take m (xs ++ ys) ≡ xs) e (take-append xs ys)

drop_exactly : (n : ℕ) (xs ys : Bytes) → length xs ≡ n → drop n (xs ++ ys) ≡ ys
drop_exactly n xs ys e = subst (λ m. drop m (xs ++ ys) ≡ ys) e (drop-append xs ys)
  where
    drop-append : (xs ys : Bytes) → drop (length xs) (xs ++ ys) ≡ ys
    drop-append [] ys = refl
    drop-append (x ∷ xs) ys = drop-append xs ys

frame_body-length : (payload : Bytes) → length (frame_body payload) ≡ 8 + length payload
unfolding frame_body
frame_body-length payload =
    let word = length-be_bytes 4 (length payload) in
    let rest = length-append (be_bytes 4 (length payload)) payload in omega arith

-- What is read of the length, whatever stands behind the body
frame_body-size :
    (payload more : Bytes)
    → length payload ≤ max_message_size
    → size_of (frame_body payload ++ more) ≡ length payload
unfolding frame_body
frame_body-size payload more h =
    let word = be_bytes 4 (length payload) in
    let fits : length payload < 256 ^ 4 = omega arith in
    let split : (word ++ payload) ++ more ≡ word ++ (payload ++ more) =
      append_assoc word payload more in
    ap be_value (
      ap (take 4) split
      ∙ take_exactly 4 word (payload ++ more) (length-be_bytes 4 (length payload)))
    ∙ be_value-be_bytes 4 (length payload) fits

frame_body-payload :
    (payload more : Bytes) → take (length payload) (drop 8 (frame_body payload ++ more)) ≡ payload
unfolding frame_body
frame_body-payload payload more =
    let word = be_bytes 4 (length payload) in
    let split : (word ++ payload) ++ more ≡ word ++ (payload ++ more) =
      append_assoc word payload more in
    ap (take (length payload)) (
      ap (drop 4) split
      ∙ drop_exactly 4 word (payload ++ more) (length-be_bytes 4 (length payload)))
    ∙ take-append payload more

frame_body-magic : (payload more : Bytes) → take 4 (frame_body payload ++ more) ≡ network_magic
unfolding frame_body
frame_body-magic payload more = refl

module _ {E : Type 0} where
  verify_own :
      (hmac : Hmac) (key signed : Bytes)
      → length (hmac key signed) ≡ 32
      → verify {E = E} hmac key signed (hmac key signed) ≡ ok tt
  unfolding verify
  verify_own hmac key signed tag =
      let long : eqb (length (hmac key signed)) 32 ≡ true =
        (eqb_iff (length (hmac key signed)) 32).1 tag in
      rw (long, (text_eq_iff (hmac key signed) (hmac key signed)).1 refl) refl

  frame_payload-framed :
      (hmac : Hmac) (key payload : Bytes)
      → length (hmac key (frame_body payload)) ≡ 32
      → length payload ≤ max_message_size
      → check_key {E = E} key ≡ ok tt
      → frame_payload {E = E} hmac key (frame_body payload ++ hmac key (frame_body payload))
        ≡ ok payload
  unfolding frame_payload
  frame_payload-framed hmac key payload tag fits has_key =
      let body = frame_body payload in
      let frame = body ++ hmac key body in
      let size = frame_body-size payload (hmac key body) fits in
      let long_body = frame_body-length payload in
      let long : length frame ≡ 8 + length payload + 32 =
        length-append body (hmac key body) ∙ omega (arith, tag, long_body) in
      let signed : take (8 + length payload) frame ≡ body =
        take_exactly (8 + length payload) body (hmac key body) long_body in
      let own_tag : drop (8 + length payload) frame ≡ hmac key body =
        drop_exactly (8 + length payload) body (hmac key body) long_body in
      let magic =
        (text_eq_iff (take 4 frame) network_magic).1 (frame_body-magic payload (hmac key body)) in
      let not_short : ltb (length frame) 8 ≡ false = ground arith in
      let not_large : ltb max_message_size (length payload) ≡ false = ground arith in
      let as_long : eqb (length frame) (8 + length payload + 32) ≡ true =
        (eqb_iff (length frame) (8 + length payload + 32)).1 long in
      rw
        (
          not_short,
          magic,
          size,
          not_large,
          as_long,
          has_key,
          signed,
          own_tag,
          verify_own hmac key body tag,
          frame_body-payload payload (hmac key body),
        )
        refl

  read_frame-framed :
      {M : Type 0} (hmac : Hmac) (read : Bytes → Result E M) (key payload more : Bytes)
      (message : M)
      → length (hmac key (frame_body payload)) ≡ 32
      → length payload ≤ max_message_size
      → check_key {E = E} key ≡ ok tt
      → read payload ≡ ok message
      → read_frame hmac read key ((frame_body payload ++ hmac key (frame_body payload)) ++ more)
        ≡ ok (message, more)
  unfolding read_frame from_frame read_payload
  read_frame-framed hmac read key payload more message tag fits has_key means =
      let body = frame_body payload in
      let frame = body ++ hmac key body in
      let split : frame ++ more ≡ body ++ (hmac key body ++ more) =
        append_assoc body (hmac key body) more in
      let size : size_of (frame ++ more) ≡ length payload =
        ap size_of split ∙ frame_body-size payload (hmac key body ++ more) fits in
      let long_body = frame_body-length payload in
      let long_frame : length frame ≡ 8 + length payload + 32 =
        length-append body (hmac key body) ∙ omega (arith, tag, long_body) in
      let long = length-append frame more in
      let not_short : ltb (length (frame ++ more)) 8 ≡ false = ground arith in
      let not_cut : ltb (length (frame ++ more)) (8 + length payload + 32) ≡ false = ground arith in
      let not_large : ltb max_message_size (length payload) ≡ false = ground arith in
      let magic : text_eq (take 4 (frame ++ more)) network_magic ≡ true =
        (text_eq_iff (take 4 (frame ++ more)) network_magic).1
          (ap (take 4) split ∙ frame_body-magic payload (hmac key body ++ more)) in
      let first : take (8 + length payload + 32) (frame ++ more) ≡ frame =
        take_exactly (8 + length payload + 32) frame more long_frame in
      let rest : drop (8 + length payload + 32) (frame ++ more) ≡ more =
        drop_exactly (8 + length payload + 32) frame more long_frame in
      let framed = frame_payload-framed hmac key payload tag fits has_key in
      rw (not_short, magic, size, not_large, not_cut, first, rest, framed, read_payload, means) refl

  -- Where the tag of a frame's body is 32 bytes, the frame that `to_frame` returns is read by `read_frame`,
  -- whatever follows it in the buffer, as far as its payload can be read as a message: the message is that
  -- of the payload, and what is left is what followed.
  pub read_frame-to_frame :
      {M : Type 0} (hmac : Hmac) (read : Bytes → Result E M) (key payload frame more : Bytes)
      (message : M)
      → length (hmac key (frame_body payload)) ≡ 32
      → to_frame {E = E} hmac key payload ≡ ok frame
      → read payload ≡ ok message
      → read_frame hmac read key (frame ++ more) ≡ ok (message, more)
  unfolding to_frame
  read_frame-to_frame {M} hmac read key payload frame more message tag made means =
      let body = frame_body payload in
      let (_, e₁, h₁) =
        bind-eq-ok (raise_if (ltb max_message_size (length payload)) message_too_large) _ made in
      let (_, e₂, h₂) = bind-eq-ok (check_key key) _ h₁ in
      let small : ltb max_message_size (length payload) ≡ false =
        raise_if-eq-ok _ message_too_large e₁ in
      let fits : length payload ≤ max_message_size = ground arith in
      let same : body ++ hmac key body ≡ frame = cc h₂ in
      subst (λ f. read_frame hmac read key (f ++ more) ≡ ok (message, more)) same
        (read_frame-framed hmac read key payload more message tag fits e₂ means)
