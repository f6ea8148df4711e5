-- ===== src/Network/Frames.antt =====
-- The authenticated frames of blockchaincoin/network.py. HMAC-SHA256 is a parameter, and so is the reading
-- of a payload as a message (`json.loads` with `from_dict`).
use blockchain_coin.Shared.{
  ℕ, ◌+◌, not, [], ◌∷◌, ◌++◌, length, take, drop, is_empty, ltb, eqb, Result, ok, err, bind,
  raise_if,
}
use blockchain_coin.Text.{Bytes, text_eq}
use blockchain_coin.Codec.Words.{be_bytes, be_value}

-- NetworkError by the messages of the frame codec; what reading a payload raises is `unreadable`.
pub data FrameError (E : Type 0) : Type 0 where
  key_missing tag_invalid authentication_failed message_too_large frame_too_short : FrameError E
  magic_invalid length_mismatch header_incomplete frame_incomplete : FrameError E
  unreadable : E → FrameError E

-- NETWORK_MAGIC
abbrev pub network_magic : Bytes
network_magic = b'B' ∷ b'C' ∷ b'C' ∷ b'N' ∷ []

-- MAX_MESSAGE_SIZE, HEADER_SIZE and AUTH_TAG_SIZE
abbrev pub max_message_size : ℕ
max_message_size = 2_000_000

abbrev pub header_size : ℕ
header_size = 8

abbrev pub auth_tag_size : ℕ
auth_tag_size = 32

-- `hmac_new(key, data, sha256).digest()`
abbrev pub Hmac : Type 0
Hmac = Bytes → Bytes → Bytes

-- Magic, length and payload
unfoldable pub frame_body : Bytes → Bytes
frame_body payload = network_magic ++ (be_bytes 4 (length payload) ++ payload)

-- The four bytes of the length
abbrev pub size_of : Bytes → ℕ
size_of frame = be_value (take 4 (drop 4 frame))

infixl 5 ◌>>=◌ ◌>>◌
abbrev ◌>>=◌ : {E A B : Type 0} → Result E A → (A → Result E B) → Result E B
◌>>=◌ = bind

abbrev ◌>>◌ : {E A B : Type 0} → Result E A → Result E B → Result E B
m >> k = bind m λ _. k

module _ {E : Type 0} where
  -- `FrameAuthenticator(key)`
  unfoldable pub check_key : Bytes → Result (FrameError E) (Unit {0})
  check_key key = raise_if (is_empty key) key_missing

  -- `FrameAuthenticator.verify`
  unfoldable pub verify : Hmac → Bytes → Bytes → Bytes → Result (FrameError E) (Unit {0})
  verify hmac key signed tag =
      bind (raise_if (not (eqb (length tag) auth_tag_size)) tag_invalid)
        λ _. raise_if (not (text_eq (hmac key signed) tag)) authentication_failed

  -- `to_frame`, of an encoded payload
  unfoldable pub to_frame : Hmac → Bytes → Bytes → Result (FrameError E) Bytes
  to_frame hmac key payload =
      bind (raise_if (ltb max_message_size (length payload)) message_too_large)
        λ _. bind (check_key key) λ _. ok (frame_body payload ++ hmac key (frame_body payload))

  -- `from_frame` up to the payload
  unfoldable pub frame_payload : Hmac → Bytes → Bytes → Result (FrameError E) Bytes
  frame_payload hmac key frame = do
    raise_if (ltb (length frame) header_size) frame_too_short
    raise_if (not (text_eq (take 4 frame) network_magic)) magic_invalid
    raise_if (ltb max_message_size (size_of frame)) message_too_large
    raise_if (not (eqb (length frame) (header_size + size_of frame + auth_tag_size)))
        length_mismatch
    check_key key
    verify hmac key (take (header_size + size_of frame) frame)
        (drop (header_size + size_of frame) frame)
    ok (take (size_of frame) (drop header_size frame))

  -- What reading a payload has returned or raised
  unfoldable pub read_payload :
      {M : Type 0} → (Bytes → Result E M) → Bytes → Result (FrameError E) M
  read_payload read payload = elim (read payload) [ ok m ↦ ok m | err e ↦ err (unreadable e) ]

  unfoldable pub from_frame :
      {M : Type 0} → Hmac → (Bytes → Result E M) → Bytes → Bytes → Result (FrameError E) M
  from_frame hmac read key frame = bind (frame_payload hmac key frame) (read_payload read)

  -- `read_frame`: the first message of a buffer, and the rest
  unfoldable pub read_frame :
      {M : Type 0} → Hmac → (Bytes → Result E M) → Bytes → Bytes → Result (FrameError E) (M × Bytes)
  read_frame hmac read key buffer = do
    raise_if (ltb (length buffer) header_size) header_incomplete
    raise_if (not (text_eq (take 4 buffer) network_magic)) magic_invalid
    raise_if (ltb max_message_size (size_of buffer)) message_too_large
    let end : ℕ = header_size + size_of buffer + auth_tag_size
    raise_if (ltb (length buffer) end) frame_incomplete
    message ← from_frame hmac read key (take end buffer)
    ok (message, drop end buffer)
