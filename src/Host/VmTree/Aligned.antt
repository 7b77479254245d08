-- ===== src/Host/VmTree/Aligned.antt =====
-- src/collect_vm_creation.rs: the column at which the hint of a printed line begins.
use mathlib.Core.List.{append_assoc}
use native.Mathlib.Nat.{pow-suc}
use jolt_ncp.Base.{
  ℕ, zero, suc, ◌+◌, ◌-◌, ◌*◌, ◌/◌, ◌^◌, ◌<◌, ◌≤◌, ◌≡◌, refl, ap, sym, ◌∙◌, ◌⊎◌, Bool-cases, inl,
  inr, List, [], ◌∷◌, ◌++◌, map, length, replicate, ltb, ◌==◌, if◌then◌else◌, arith,
}
use jolt_ncp.Host.Text.{Text, lit, dec, hex, hash_hex, signed, fixed, chars, codes}
use jolt_ncp.Host.Executor.{CollectorKey}
use jolt_ncp.Host.VmTree.{Segment, tee, elbow, bar, gap, Line, collector_key_str}
use jolt_ncp.Host.VmTree.Render.{digits, u64_digits, segment_str, key_width, line_width, render}

-- A number of `e + 1` digits in base ten; 0 has one digit.
abbrev pub HasDigits : ℕ → ℕ → Type 0
HasDigits n e = (n < 10 ^ suc e) × ((e ≡ 0) ⊎ (10 ^ e ≤ n))

digits-HasDigits : (k n : ℕ) → n < 10 ^ suc k → (e : ℕ) × (digits k n ≡ suc e) × HasDigits n e
unfolding digits
digits-HasDigits zero n fits = (0, refl, (fits, inl refl))
digits-HasDigits (suc k) n fits = elim (Bool-cases (ltb n 10)) [
  | inl small ↦ (0, rw small refl, (ground (arith, small), inl refl))
  | inr large ↦
      let ten : 10 ≤ n = ground (arith, large) in
      let (e, same, (below, above)) =
        digits-HasDigits k (n / 10) (omega (arith, fits, pow-suc 10 (suc k))) in
      (
        suc e,
        rw (large, same) refl,
        (
          omega (arith, below, pow-suc 10 (suc e)),
          inr (elim above [
            | inl one ↦ rw one (omega (arith, ten))
            | inr more ↦ omega (arith, more, pow-suc 10 e)
          ]),
        ),
      )
]

-- The width of a number of 64 bits is that of its digits.
pub u64_digits-HasDigits : (n : ℕ) → n < 2 ^ 64 → (e : ℕ) × (u64_digits n ≡ suc e) × HasDigits n e
u64_digits-HasDigits n fits = digits-HasDigits 20 n (omega arith)

-- The characters of a text of literals and numbers.
unfoldable pub width : Text → ℕ
width [] = 0
width (lit s ∷ rest) = length (codes s) + width rest
width (dec n ∷ rest) = u64_digits n + width rest
width (_ ∷ rest) = width rest

width-append : (s t : Text) → width (s ++ t) ≡ width s + width t
unfolding width
width-append [] t = omega arith
width-append (lit s ∷ rest) t = omega (arith, width-append rest t)
width-append (dec n ∷ rest) t = omega (arith, width-append rest t)
width-append (hex n ∷ rest) t = width-append rest t
width-append (hash_hex n ∷ rest) t = width-append rest t
width-append (signed n ∷ rest) t = width-append rest t
width-append (fixed a b c ∷ rest) t = width-append rest t
width-append (chars cs ∷ rest) t = width-append rest t

width-indent : (ss : List Segment) → width (map (λ s. lit (segment_str s)) ss) ≡ 4 * length ss
unfolding width
width-indent [] = refl
width-indent (tee ∷ ss) = omega (arith, width-indent ss)
width-indent (elbow ∷ ss) = omega (arith, width-indent ss)
width-indent (bar ∷ ss) = omega (arith, width-indent ss)
width-indent (gap ∷ ss) = omega (arith, width-indent ss)

width-collector_key_str : (key : CollectorKey) → width (collector_key_str key) ≡ key_width key
unfolding width key_width
width-collector_key_str key = elim (Bool-cases (key.generation_id == 0)) [
  | inl first ↦ rw first (omega arith)
  | inr later ↦ rw later (omega arith)
]

width-spaces : (n : ℕ) → width (replicate n (lit " ")) ≡ n
unfolding width
width-spaces zero = refl
width-spaces (suc n) = omega (arith, width-spaces n)

-- A machine's id, and its generation behind a slash unless that is 0.
abbrev pub machine_text : CollectorKey → Text
machine_text key = elim key.generation_id [
  | zero ↦ dec key.vm_id ∷ []
  | suc n ↦ dec key.vm_id ∷ lit "/" ∷ dec (suc n) ∷ []
]

generation_text :
    (v n : ℕ)
    → collector_key_str (record { vm_id = v; generation_id = n })
      ≡ machine_text (record { vm_id = v; generation_id = n })
generation_text v zero = refl
generation_text v (suc n) = ground arith

collector_key_str-machine_text : (key : CollectorKey) → collector_key_str key ≡ machine_text key
collector_key_str-machine_text key = generation_text key.vm_id key.generation_id

-- What a line has before its padding.
abbrev pub key_text : Line → Text
key_text line =
    lit "Spawn tree: " ∷ (map (λ s. lit (segment_str s)) line.indent ++ machine_text line.key)

width-key_text : (line : Line) → width (key_text line) ≡ line_width line
unfolding width line_width
width-key_text line = omega (
  arith,
  width-append (map (λ s. lit (segment_str s)) line.indent) (machine_text line.key),
  width-indent line.indent,
  ap width (sym (collector_key_str-machine_text line.key)) ∙ width-collector_key_str line.key,
)

padded : (own w : ℕ) → own ≡ w → w + (32 - w) ≡ (if ltb own 32 then 32 else own)
padded own w same = ground (arith, same)

dec_width : (k : ℕ) → k < 2 ^ 64 → (e : ℕ) × (width (dec k ∷ []) ≡ suc e) × HasDigits k e
unfolding width
dec_width k fits = let (e, same, has) = u64_digits-HasDigits k fits in (e, omega (arith, same), has)

-- The printed line of a machine is `Spawn tree: `, the indentation, the machine's key, some
-- spaces, one more space and the hint; what stands before that last space is 32 columns wide, or
-- as wide as what stands before the spaces, where that is 32 columns or more. The machine's key is
-- its id, with its generation behind a slash unless that is 0; and a number below 2^64 is as wide
-- as it has digits in base ten.
pub render-key_text :
    (line : Line)
    → (n : ℕ) × (render line ≡ key_text line ++ (replicate n (lit " ") ++ (lit " " ∷ line.hint)))
      × (width (key_text line ++ replicate n (lit " "))
          ≡ (if ltb (width (key_text line)) 32 then 32 else width (key_text line)))
      × ((k : ℕ) → k < 2 ^ 64 → (e : ℕ) × (width (dec k ∷ []) ≡ suc e) × HasDigits k e)
unfolding render width
render-key_text line =
    let n = 32 - line_width line in
    let size : width (key_text line ++ replicate n (lit " ")) ≡ line_width line + n =
      width-append (key_text line) (replicate n (lit " "))
      ∙ omega (arith, width-key_text line, width-spaces n) in
    (
      n,
      ap
            (λ t.
              lit "Spawn tree: "
              ∷ (map (λ s. lit (segment_str s)) line.indent
                  ++ (t ++ (replicate n (lit " ") ++ (lit " " ∷ line.hint)))))
            (collector_key_str-machine_text line.key)
          ∙ ap (λ t. lit "Spawn tree: " ∷ t)
              (sym (
                append_assoc (map (λ s. lit (segment_str s)) line.indent) (machine_text line.key)
                  (replicate n (lit " ") ++ (lit " " ∷ line.hint)))),
      size ∙ padded (width (key_text line)) (line_width line) (width-key_text line),
      dec_width,
    )
