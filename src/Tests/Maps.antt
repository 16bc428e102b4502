-- ===== src/Tests/Maps.antt =====
-- The laws of the header crates for the concrete instance.
use touche.Base.{
  ℕ, zero, suc, ◌+◌, ◌/◌, ◌%◌, ◌<◌, ◌≡◌, refl, ap, ◌∙◌, none, some, [], ◌∷◌, ◌++◌, append-nil,
  append_assoc, arith, Bytes, codes, true, false, Bool-cases, All, inl, inr,
}
use touche.Crates.Laws.{HeaderLaws}
use touche.Head.{add_headers}
use touche.Wire.Header.{IsHeader}
use touche.Tests.Sample.{
  sample, Pairs, same, lookup, without, put, decimal, decimal_onto, decimal_value,
}

same_refl : (xs : Bytes) → same xs xs ≡ true
unfolding same
same_refl [] = refl
same_refl (x ∷ xs) = ground (arith, same_refl xs)

same-eq : (xs ys : Bytes) → same xs ys ≡ true → xs ≡ ys
unfolding same
same-eq [] [] h = refl
same-eq [] (y ∷ ys) h = ground arith
same-eq (x ∷ xs) [] h = ground arith
same-eq (x ∷ xs) (y ∷ ys) h = ground (arith, same-eq xs ys)

lookup-append-none :
    (name : Bytes) (hs : Pairs) (h : Bytes × Bytes)
    → lookup name hs ≡ none
    → lookup name (hs ++ h ∷ []) ≡ lookup name (h ∷ [])
unfolding lookup
lookup-append-none name [] h e = refl
lookup-append-none name (g ∷ hs) h e = ground (arith, lookup-append-none name hs h)

lookup-append_other :
    (name : Bytes) (hs : Pairs) (other value : Bytes)
    → same other name ≡ false
    → lookup name (hs ++ (other, value) ∷ []) ≡ lookup name hs
unfolding lookup
lookup-append_other name [] other value e = rw e
lookup-append_other name (g ∷ hs) other value e = rw (lookup-append_other name hs other value e)

lookup-without : (name : Bytes) (hs : Pairs) → lookup name (without name hs) ≡ none
unfolding lookup without
lookup-without name [] = refl
lookup-without name ((n, v) ∷ hs) = ground (arith, lookup-without name hs)

lookup-without_other :
    (name other : Bytes) (hs : Pairs)
    → same other name ≡ false
    → lookup name (without other hs) ≡ lookup name hs
unfolding lookup without
lookup-without_other name other [] e = refl
lookup-without_other name other ((n, v) ∷ hs) e = elim (Bool-cases (same n other)) [
  | inl f ↦
      let g : n ≡ other = same-eq n other f in
      rw f (rw (g, e) (lookup-without_other name other hs e))
  | inr f ↦ rw f (rw (lookup-without_other name other hs e))
]

pub lookup-put : (name value : Bytes) (hs : Pairs) → lookup name (put name value hs) ≡ some value
unfolding lookup
lookup-put name value hs =
    lookup-append-none name (without name hs) (name, value) (lookup-without name hs)
    ∙ rw (same_refl name)

pub lookup-put_other :
    (name other value : Bytes) (hs : Pairs)
    → same other name ≡ false
    → lookup name (put other value hs) ≡ lookup name hs
lookup-put_other name other value hs e =
    lookup-append_other name (without other hs) other value e ∙ lookup-without_other name other hs e

decimal_value-onto :
    (fuel n : ℕ) (acc : Bytes)
    → n < fuel
    → decimal_value 0 (decimal_onto fuel n acc) ≡ decimal_value n acc
unfolding decimal_onto decimal_value
decimal_value-onto zero n acc h = elim h [ ]
decimal_value-onto (suc fuel) n acc h =
    ground (arith, decimal_value-onto fuel (n / 10) ((48 + n % 10) ∷ acc))

decimal_value-decimal : (n : ℕ) → decimal_value 0 (decimal n) ≡ n
unfolding decimal_value
decimal_value-decimal n = decimal_value-onto (suc n) n [] (omega arith)

add_headers-append :
    (hs more : Pairs) → All IsHeader more → add_headers sample hs more ≡ some (hs ++ more)
unfolding add_headers
add_headers-append hs [] v = rw append-nil
add_headers-append hs (([], value) ∷ more) v = absurd (omega (arith, v.0.named))
add_headers-append hs ((b ∷ name, value) ∷ more) v =
    add_headers-append (hs ++ (b ∷ name, value) ∷ []) more v.1
    ∙ ap some (append_assoc hs ((b ∷ name, value) ∷ []) more)

pub sample-HeaderLaws : HeaderLaws sample
unfolding same
sample-HeaderLaws = record {
  none_new = refl;
  rebuilt = λ h v. add_headers-append [] h v;
  get_transfer_encoding = λ h t e. ground arith;
  get_content_length = λ h n e. ground arith;
  insert_content_length =
      λ h n fits. rw (lookup-put (codes "content-length") (decimal n) h, decimal_value-decimal n);
  insert_content_length-transfer_encoding = λ h n.
      rw (lookup-put_other (codes "transfer-encoding") (codes "content-length") (decimal n) h refl);
  insert_chunked = λ h. rw (lookup-put (codes "transfer-encoding") (codes "chunked") h);
  insert_connection_close = λ h. rw (lookup-put (codes "connection") (codes "close") h);
  insert_connection_close-transfer_encoding = λ h.
      rw (lookup-put_other (codes "transfer-encoding") (codes "connection") (codes "close") h refl);
  insert_connection_close-content_length = λ h.
      rw (lookup-put_other (codes "content-length") (codes "connection") (codes "close") h refl);
  remove_transfer_encoding = λ h. rw (lookup-without (codes "transfer-encoding") h);
  remove_transfer_encoding-content_length =
      λ h. rw (lookup-without_other (codes "content-length") (codes "transfer-encoding") h refl);
  remove_transfer_encoding-connection =
      λ h. rw (lookup-without_other (codes "connection") (codes "transfer-encoding") h refl);
}
