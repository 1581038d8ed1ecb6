-- ===== src/Net/Parts.antt =====
-- Texts put together and taken apart again.
use livy_next.Prelude.{
  ℕ, ◌≡◌, refl, false, [], ◌∷◌, ◌++◌, none, some, Text, has_prefix, trim_right, ◌==◌, arith,
}
use livy_next.Net.{
  is_space, trim_right_space, keep_unless_last, cut, cut_last, has_byte, starts_with, split_last,
  split_host_port,
}

pub has_byte-append :
    (b : ℕ) (s t : Text) → has_byte b s ≡ false → has_byte b t ≡ false → has_byte b (s ++ t) ≡ false
unfolding has_byte
has_byte-append b [] t h k = k
has_byte-append b (c ∷ s) t h k = ground (arith, has_byte-append b s t)

pub cut-here : (b : ℕ) (s t : Text) → has_byte b s ≡ false → cut b (s ++ b ∷ t) ≡ some (s, t)
unfolding cut has_byte
cut-here b [] t h = ground arith
cut-here b (c ∷ s) t h =
    let e : has_byte b s ≡ false = ground arith in
    let f : (c == b) ≡ false = ground arith in rw (f, cut-here b s t e) refl

cut_last-absent : (b : ℕ) (s : Text) → has_byte b s ≡ false → cut_last b s ≡ none
unfolding cut_last has_byte
cut_last-absent b [] h = refl
cut_last-absent b (c ∷ s) h =
    let e : has_byte b s ≡ false = ground arith in
    let f : (c == b) ≡ false = ground arith in rw (cut_last-absent b s e) (rw f refl)

pub cut_last-here :
    (b : ℕ) (s t : Text) → has_byte b t ≡ false → cut_last b (s ++ b ∷ t) ≡ some (s, t)
unfolding cut_last
cut_last-here b [] t h = rw (cut_last-absent b t h) (ground arith)
cut_last-here b (c ∷ s) t h = rw (cut_last-here b s t h) refl

pub trim_right-last : (b : ℕ) (s : Text) → has_byte b s ≡ false → trim_right b (s ++ b ∷ []) ≡ s
unfolding trim_right has_byte
trim_right-last b [] h = ground arith
trim_right-last b (c ∷ []) h = rw (trim_right-last b [] refl) (ground arith)
trim_right-last b (c ∷ d ∷ s) h =
    let e : has_byte b (d ∷ s) ≡ false = ground arith in rw (trim_right-last b (d ∷ s) e) refl

keep_unless_last-cons : (c : ℕ) (s : Text) → is_space c ≡ false → keep_unless_last c s ≡ c ∷ s
unfolding keep_unless_last
keep_unless_last-cons c [] h = rw h refl
keep_unless_last-cons c (d ∷ s) h = refl

pub trim_right_space-cons :
    (c : ℕ) (s : Text) → is_space c ≡ false → trim_right_space (c ∷ s) ≡ c ∷ trim_right_space s
unfolding trim_right_space
trim_right_space-cons c s h = keep_unless_last-cons c (trim_right_space s) h

keep_unless_last-long :
    (d : ℕ) (p : Text) (c : ℕ) (q : Text) → keep_unless_last d (p ++ c ∷ q) ≡ d ∷ (p ++ c ∷ q)
unfolding keep_unless_last
keep_unless_last-long d [] c q = refl
keep_unless_last-long d (e ∷ p) c q = refl

pub trim_right_space-keep :
    (p : Text) (c : ℕ) (q : Text)
    → is_space c ≡ false
    → trim_right_space (p ++ c ∷ q) ≡ p ++ c ∷ trim_right_space q
unfolding trim_right_space
trim_right_space-keep [] c q h = trim_right_space-cons c q h
trim_right_space-keep (d ∷ p) c q h =
    rw (trim_right_space-keep p c q h) (keep_unless_last-long d p c (trim_right_space q))

-- A colon in the text where the scheme ends, but not followed by what the prefix has there.
pub has_prefix-colon :
    (b : ℕ) (s t : Text) (y p : Text)
    → has_byte b s ≡ false
    → has_byte b t ≡ false
    → has_prefix y p ≡ false
    → has_prefix (s ++ b ∷ y) (t ++ b ∷ p) ≡ false
unfolding has_prefix has_byte
has_prefix-colon b [] [] y p h k l = ground arith
has_prefix-colon b [] (d ∷ t) y p h k l = ground arith
has_prefix-colon b (c ∷ s) [] y p h k l = ground arith
has_prefix-colon b (c ∷ s) (d ∷ t) y p h k l = ground (arith, has_prefix-colon b s t y p)

starts_with-append :
    (b : ℕ) (s : Text) (c : ℕ) (t : Text)
    → has_byte b s ≡ false
    → (c == b) ≡ false
    → starts_with b (s ++ c ∷ t) ≡ false
unfolding starts_with has_byte
starts_with-append b [] c t h k = k
starts_with-append b (d ∷ s) c t h k = ground arith

pub split_host_port-plain :
    (host port : Text)
    → has_byte b':' host ≡ false
    → has_byte b'[' host ≡ false
    → has_byte b']' host ≡ false
    → has_byte b':' port ≡ false
    → has_byte b'[' port ≡ false
    → has_byte b']' port ≡ false
    → split_host_port (host ++ b':' ∷ port) ≡ some (host, port)
unfolding split_host_port split_last
split_host_port-plain host port a b c d e f =
    let s = host ++ b':' ∷ port in
    let g : has_byte b'[' s ≡ false =
      has_byte-append b'[' host (b':' ∷ port) b (unfold has_byte in e) in
    let h : has_byte b']' s ≡ false =
      has_byte-append b']' host (b':' ∷ port) c (unfold has_byte in f) in
    rw (cut_last-here b':' host port d)
      (rw (starts_with-append b'[' host b':' port b refl, a, g, h) refl)
