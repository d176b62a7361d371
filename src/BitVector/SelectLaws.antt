-- ===== src/BitVector/SelectLaws.antt =====
-- Which cells the constructors of part selects of src/common/bvector.h choose.
use verilog_behavioral_simul.Base.{
  leb→le, le→leb, ℕ, suc, ◌+◌, ◌-◌, ◌≤◌, ◌<◌, ◌≡◌, refl, arith, sym, Bool, true, false, some, leb,
  if◌then◌else◌, pos,
}
use verilog_behavioral_simul.BitVector.Select.{select_const, select, select_ordered}
use verilog_behavioral_simul.BitVector.{BitVector, start_pos, past_end}

-- Both constructors on indices that are not negative.
select-down :
    (v : BitVector) (ms ls : ℕ)
    → v.msb_lower ≡ false
    → leb ls ms ≡ true
    → (select v (pos ms) (pos ls) ≡ some (record { first = pos ls; count = suc (ms - ls) }))
      × (select_const v (pos ms) (pos ls) ≡ some (record { first = pos ls; count = suc (ms - ls) }))
unfolding select select_const select_ordered
select-down v ms ls e h = rw (e, h) (refl, refl)

select-up :
    (v : BitVector) (ms ls t : ℕ)
    → v.msb_lower ≡ true
    → leb ms ls ≡ true
    → t ≡ past_end v - 1 + start_pos v
    → leb ls t ≡ true
    → (select v (pos ms) (pos ls) ≡ some (record { first = pos (t - ls); count = suc (ls - ms) }))
      × (select_const v (pos ms) (pos ls)
          ≡ some (record { first = pos (t - ls); count = suc (ls - ms) }))
unfolding select select_const select_ordered
select-up v ms ls t e h et k = rw (e, h, sym et, k) (refl, refl)

abbrev pub Selects : BitVector → ℕ → ℕ → Bool → Type 0
Selects v ms ls up =
    (f : ℕ) × (n : ℕ) × (select v (pos ms) (pos ls) ≡ some (record { first = pos f; count = n }))
    × (select_const v (pos ms) (pos ls) ≡ some (record { first = pos f; count = n }))
    × (start_pos v ≤ f)
    × (f + n ≤ past_end v)
    × (n ≡ suc (if up then ls - ms else ms - ls))
    × (f ≡ (if up then past_end v - 1 + start_pos v - ls else ls))

select-go :
    (v : BitVector) (ms ls : ℕ) (up : Bool)
    → v.msb_lower ≡ up
    → start_pos v ≤ ms
    → ms < past_end v
    → start_pos v ≤ ls
    → ls < past_end v
    → (if up then leb ms ls else leb ls ms) ≡ true
    → Selects v ms ls up
select-go v ms ls false e a b c d h =
    let (x, y) = select-down v ms ls e h in
    (ls, suc (ms - ls), x, y, c, omega (arith, leb→le ls ms h), refl, refl)
select-go v ms ls true e a b c d h =
    let t = past_end v - 1 + start_pos v in
    let (x, y) = select-up v ms ls t e h refl (le→leb ls t (omega arith)) in
    (t - ls, suc (ls - ms), x, y, omega arith, omega (arith, leb→le ms ls h), refl, refl)

-- A part select whose indices lie inside the declared range, in the declared order, is cells
-- inside the vector, as many as the indices span, counted from the low end of the vector for a
-- range declared [low:high]; the const form selects the same cells.
pub select-inside :
    (v : BitVector) (ms ls : ℕ)
    → start_pos v ≤ ms
    → ms < past_end v
    → start_pos v ≤ ls
    → ls < past_end v
    → (if v.msb_lower then leb ms ls else leb ls ms) ≡ true
    → Selects v ms ls v.msb_lower
select-inside v ms ls a b c d h = select-go v ms ls v.msb_lower refl a b c d h
