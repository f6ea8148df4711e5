-- ===== src/Codec/Reads.antt =====
-- When a decoder of Codec/Reader.antt reads a value off the front of what is left: the rules by which
-- the round trips of the codecs are composed.
use blockchain_coin.Shared.{
  ℕ, ◌+◌, ◌≤◌, ◌≡◌, refl, ap, true, false, [], ◌++◌, arith, append_assoc, append-nil, length,
  length-append, length-drop, take-append, drop, drop-drop_append, eqb, ltb, ok, bind, subst,
}
use blockchain_coin.Text.{Bytes}
use blockchain_coin.Codec.Encode.{Encoded}
use blockchain_coin.Codec.Reader.{
  ByteReader, new_reader, Decoder, ◌>>=◌, pure, read, require_finished,
}

-- What the reader has left.
pub record At (r : ByteReader) (rest : Bytes) : Type 0 where
  pub inside : r.offset ≤ length r.payload
  pub left : drop r.offset r.payload ≡ rest

-- In front of any rest, `p` reads `a` off the bytes `bs` and stops behind them.
pub record Reads {ℓ} {A : Type ℓ} (p : Decoder A) (bs : Bytes) (a : A) : Type ℓ where
  pub run :
      (r : ByteReader) (rest : Bytes)
      → At r (bs ++ rest)
      → (r' : ByteReader) × (p r ≡ ok (a, r')) × At r' rest

pub Reads-pure {ℓ} : {A : Type ℓ} (a : A) → Reads (pure a) [] a
unfolding pure
Reads-pure a = record { run = λ r rest h. (r, refl, h) }

pub Reads-bind {ℓ κ} :
    {A : Type ℓ} {B : Type κ} {p : Decoder B} (f : B → Decoder A) {xs ys : Bytes} {b : B} {a : A}
    → Reads p xs b
    → Reads (f b) ys a
    → Reads (p >>= f) (xs ++ ys) a
unfolding ◌>>=◌
Reads-bind f {xs} {ys} reads_p reads_f = record {
  run = λ r rest h.
      let (r', e, h') = reads_p.run r (ys ++ rest) (rw append_assoc at h) in
      let (r'', e', h'') = reads_f.run r' rest h' in (r'', rw (e, bind) e', h'');
}

-- The last step, which reads nothing more.
pub Reads-map {ℓ κ} :
    {A : Type ℓ} {B : Type κ} {p : Decoder B} (f : B → A) {xs : Bytes} {b : B}
    → Reads p xs b
    → Reads (p >>= λ x. pure (f x)) xs (f b)
unfolding ◌>>=◌ pure
Reads-map f reads_p = record {
  run = λ r rest h. let (r', e, h') = reads_p.run r rest h in (r', rw (e, bind), h');
}

-- The bytes, by the outcome of the encoder that made them.
pub Reads-ok {ℓ} :
    {A : Type ℓ} {p : Decoder A} {xs bs : Bytes} {a : A}
    → ◌≡◌ {A = Encoded} (ok xs) (ok bs)
    → Reads p xs a
    → Reads p bs a
Reads-ok {p} {xs} {bs} {a} h reads = let e : xs ≡ bs = cc in subst (λ ys. Reads p ys a) e reads

pub Reads-value {ℓ} :
    {A : Type ℓ} {p : Decoder A} {xs : Bytes} {a b : A} → a ≡ b → Reads p xs a → Reads p xs b
Reads-value {p} {xs} e reads = subst (λ c. Reads p xs c) e reads

At-advance :
    (r : ByteReader) (xs rest : Bytes)
    → At r (xs ++ rest)
    → At (record r { offset = r.offset + length xs }) rest
At-advance r xs rest h = record {
  inside =
      omega
        (arith, ap length h.left, length-drop {0} r.offset r.payload, length-append {0} xs rest);
  left = drop-drop_append r.offset r.payload xs rest h.left;
}

At-room :
    (r : ByteReader) (xs rest : Bytes)
    → At r (xs ++ rest)
    → ltb (length r.payload) (r.offset + length xs) ≡ false
At-room r xs rest h = let a = At-advance r xs rest h in ground (arith, a.inside)

pub read-Reads : (xs : Bytes) → Reads (read (length xs)) xs xs
unfolding read
read-Reads xs = record {
  run = λ r rest h. (
    record r { offset = r.offset + length xs },
    rw (At-room r xs rest h, h.left, take-append xs rest),
    At-advance r xs rest h,
  );
}

pub read-Reads_of_length : (n : ℕ) (xs : Bytes) → length xs ≡ n → Reads (read n) xs xs
read-Reads_of_length n xs e = subst (λ k. Reads (read k) xs xs) e (read-Reads xs)

-- The last part of a payload: `p` returns `a` where nothing follows.
pub record Finishes {ℓ} {A : Type ℓ} (p : Decoder A) (bs : Bytes) (a : A) : Type ℓ where
  pub run : (r : ByteReader) → At r bs → (r' : ByteReader) × (p r ≡ ok (a, r'))

pub Finishes-bind {ℓ κ} :
    {A : Type ℓ} {B : Type κ} {p : Decoder B} (f : B → Decoder A) {xs ys : Bytes} {b : B} {a : A}
    → Reads p xs b
    → Finishes (f b) ys a
    → Finishes (p >>= f) (xs ++ ys) a
unfolding ◌>>=◌
Finishes-bind f {xs} {ys} reads_p rest_f = record {
  run = λ r h.
      let (r', e, h') = reads_p.run r ys h in
      let (r'', e') = rest_f.run r' h' in (r'', rw (e, bind) e');
}

-- `require_finished` passes where nothing is left.
pub Finishes-end {ℓ} : {A : Type ℓ} (a : A) → Finishes (require_finished >>= λ _. pure a) [] a
unfolding ◌>>=◌ pure require_finished
Finishes-end a = record {
  run = λ r h.
      let done : eqb r.offset (length r.payload) ≡ true =
        ground (arith, h.inside, ap length h.left, length-drop {0} r.offset r.payload) in
      (r, rw done);
}

pub At-new : (bs : Bytes) → At (new_reader bs) bs
At-new bs = record { inside = omega arith; left = refl }

pub Finishes-last {ℓ κ} :
    {A : Type ℓ} {B : Type κ} {p : Decoder B} (f : B → Decoder A) {xs : Bytes} {b : B} {a : A}
    → Reads p xs b
    → Finishes (f b) [] a
    → Finishes (p >>= f) xs a
Finishes-last {p} f {xs} {a} reads rest =
    subst (λ ys. Finishes (p >>= f) ys a) (append-nil xs) (Finishes-bind f reads rest)

pub Finishes-ok {ℓ} :
    {A : Type ℓ} {p : Decoder A} {xs bs : Bytes} {a : A}
    → ◌≡◌ {A = Encoded} (ok xs) (ok bs)
    → Finishes p xs a
    → Finishes p bs a
Finishes-ok {p} {xs} {bs} {a} h rest = let e : xs ≡ bs = cc in subst (λ ys. Finishes p ys a) e rest
