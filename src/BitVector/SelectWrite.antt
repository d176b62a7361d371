-- ===== src/BitVector/SelectWrite.antt =====
-- What an assignment to a part select of src/common/bvector.h leaves in the cells.
use verilog_behavioral_simul.BitVector.Value.{Known}
use verilog_behavioral_simul.Base.{
  subst, take-all, length-take, take-length, take-append-drop, length-replicate, drop-drop,
  drop-length, lt→ltb, le→leb, length-append, not_lt→ltb, dec_lt, length-drop, ℕ, zero, suc, ◌+◌,
  ◌-◌, ◌≤◌, ◌≡◌, refl, arith, ap, Bool, true, false, some, List, [], ◌∷◌, ◌++◌, length, take, drop,
  replicate, pos,
}
use verilog_behavioral_simul.BitVector.Select.{read, overwrite, write_loop, write_selected}
use verilog_behavioral_simul.BitVector.{BitVector, SignedType, cells, start_pos, past_end, size}
use verilog_behavioral_simul.Logic.{Logic, lo, hi, dc, z, nvl}
use verilog_behavioral_simul.BitVector.Assign.{fit_bits}

-- A cell that is part of the number.
abbrev pub used : Logic → Bool
used nvl = false
used _ = true

abbrev pub Used : List Logic → Type 0
Used [] = Unit
Used (b ∷ bs) = (used b ≡ true) × Used bs

overwrite-used : (c s : Logic) → used c ≡ true → used s ≡ true → overwrite c s ≡ s
unfolding overwrite
overwrite-used c s h k = ground arith

fit_bits-cons :
    (n : ℕ) (s : Logic) (src : List Logic)
    → fit_bits (suc n) false (s ∷ src) ≡ s ∷ fit_bits n false src
unfolding fit_bits
fit_bits-cons n s src = ground arith

fit_bits-nil : (n : ℕ) → fit_bits n false [] ≡ replicate n lo
unfolding fit_bits
fit_bits-nil zero = refl
fit_bits-nil (suc n) =
    rw (lt→ltb 0 (suc n) (omega arith))
      (ap (λ t. replicate t lo) {x = suc n - 0} {y = suc n} (omega arith))

fit_bits-zero : (src : List Logic) → fit_bits 0 false src ≡ []
unfolding fit_bits
fit_bits-zero src = rw (not_lt→ltb (length src) 0 (omega arith)) refl

pub length-fit_bits :
    (n : ℕ) (extend : Bool) (src : List Logic) → length (fit_bits n extend src) ≡ n
unfolding fit_bits
length-fit_bits n extend src = elim (dec_lt (length src) n) [
  | yes short ↦ rw (lt→ltb _ _ short, length-append, length-replicate) (omega arith)
  | no long ↦ rw (not_lt→ltb (length src) n (omega arith), length-take) (omega arith)
]

-- The loop replaces the selected cells by the source, truncated or extended by zeros.
write_loop-fit :
    (cs : List Logic) (n : ℕ) (src : List Logic)
    → n ≤ length cs
    → Used (take n cs)
    → Used src
    → write_loop cs n src ≡ record { cells = fit_bits n false src ++ drop n cs; overrun = 0 }
unfolding write_loop
write_loop-fit [] zero src h u k = rw fit_bits-zero refl
write_loop-fit [] (suc n) src h u k = absurd (omega arith)
write_loop-fit (c ∷ cs) zero src h u k = rw fit_bits-zero refl
write_loop-fit (c ∷ cs) (suc n) [] h u k = rw fit_bits-nil (
    ap (λ o. record { cells = replicate (suc n) lo ++ drop n cs; overrun = o })
      {x = suc n - suc (length cs)} {y = 0} (omega arith))
write_loop-fit (c ∷ cs) (suc n) (s ∷ src) h u k =
    rw (write_loop-fit cs n src (omega arith) u.1 k.1, overwrite-used c s u.0 k.0, fit_bits-cons)
      refl

-- Reading back what was written.
pub read-append :
    (xs ys zs : List Logic) (f n : ℕ)
    → length xs ≡ f
    → length ys ≡ n
    → read (xs ++ (ys ++ zs)) (pos f) n ≡ some ys
unfolding read
read-append xs ys zs f n ef en =
    subst (λ t. read (xs ++ (ys ++ zs)) (pos t) n ≡ some ys) ef
      (subst (λ t. read (xs ++ (ys ++ zs)) (pos (length xs)) t ≡ some ys) en
        (rw
          (
            le→leb (length xs + length ys) (length (xs ++ (ys ++ zs)))
                (rw (length-append, length-append) (omega arith)),
            drop-length,
            take-length,
          )
          refl))

length-replaced :
    (cs ys : List Logic) (f n : ℕ)
    → f + n ≤ length cs
    → length ys ≡ n
    → length (take f cs ++ (ys ++ drop (f + n) cs)) ≡ length cs
length-replaced cs ys f n h e =
    rw (length-append, length-append, length-take, length-drop) (omega arith)

-- The cells that a write leaves where all it writes to is there and in use.
write_cells :
    (cs : List Logic) (f n : ℕ) (src : List Logic)
    → f + n ≤ length cs
    → Used (take n (drop f cs))
    → Used src
    → (take f cs ++ take (length cs - f) (write_loop (drop f cs) n src).cells
        ≡ take f cs ++ (fit_bits n false src ++ drop (f + n) cs))
      × ((write_loop (drop f cs) n src).overrun ≡ 0)
write_cells cs f n src h u k =
    rw
      (
        write_loop-fit (drop f cs) n src (rw length-drop (omega arith)) u k,
        drop-drop n f cs,
        take-all (length cs - f) (fit_bits n false src ++ drop (f + n) cs)
            (rw (length-append, length-fit_bits, length-drop) (omega arith)),
      )
      (refl, refl)

pub write_selected-cells :
    (v : BitVector) (f n : ℕ) (src : List Logic) (s : SignedType)
    → f + n ≤ past_end v
    → Used (take n (drop f (cells v)))
    → Used src
    → (v' : BitVector) × (write_selected v (record { first = pos f; count = n }) src s
        ≡ some (v', 0))
      × (cells v' ≡ take f (cells v) ++ (fit_bits n false src ++ drop (f + n) (cells v)))
      × (start_pos v' ≡ start_pos v)
      × (size v' ≡ size v)
unfolding write_selected
write_selected-cells v f n src s h u k =
    let (xs, o) = write_cells (cells v) f n src (rw length-append h) u k in
    let len =
      length-replaced (cells v) (fit_bits n false src) f n (rw length-append h)
        (length-fit_bits n false src) in
    rw (xs, o)
      (
        _,
        refl,
        take-append-drop _ _,
        rw (length-take, len, length-append) (omega arith),
        rw (length-drop, len, length-append) (omega arith),
      )

pub Used-Known : (bs : List Logic) → Known bs → Used bs
Used-Known [] k = tt
Used-Known (lo ∷ bs) k = (refl, Used-Known bs k.1)
Used-Known (hi ∷ bs) k = (refl, Used-Known bs k.1)
Used-Known (dc ∷ bs) k = cc
Used-Known (z ∷ bs) k = cc
Used-Known (nvl ∷ bs) k = cc

pub fit_bits-same :
    (n : ℕ) (extend : Bool) (src : List Logic) → length src ≡ n → fit_bits n extend src ≡ src
unfolding fit_bits
fit_bits-same n extend src e =
    rw (not_lt→ltb (length src) n (omega arith)) (take-all n src (omega arith))
