-- ===== src/Unroll/Frames.antt =====
-- `Unroller` of src/opencollate/sequential_cnf.py: its state, `append` and `property`.
use Prim.Native.String.{String}
use open_collate.Common.{
  ℕ, zero, suc, ◌-◌, ℤ, Bool, not, ◌&&◌, Option, none, some, List, [], ◌∷◌, ◌++◌, neg, length,
  get_elem?, set, leb, ltb, if◌then◌else◌, Dict, lookup, put, sorted, name_le,
}
use open_collate.Kernel.Meter.{remaining, lookup_failed}
use open_collate.Cnf.State.{M, pure, raise, one, ◌>>=◌, ◌>>◌}
use open_collate.Cnf.Gates.{paid, and_, or_}
use open_collate.Cnf.Words.{Bits, bits, const, equal}
use open_collate.Ir.Builder.{Circuit}
use open_collate.Spec.Request.{Reset, Guard, Expected, from_source, constant, Property, Spec}
use open_collate.Spec.Normalize.{sort_by}
use open_collate.Unroll.Loop.{Cache, no_bits, lower}

-- `self.frames` and `self.nodes`, frame by frame.
abbrev pub Frames : Type 0
Frames = List (Dict Bits × Cache)

abbrev pub found {ℓ} : {A : Type ℓ} → Option A → M A
found none = raise lookup_failed
found (some a) = pure a

-- `q.meter.remaining()`
unfoldable pub check_deadline : M (Unit {0})
unfolding remaining
check_deadline q = paid q (remaining q.meter)

-- `self.c.signals[n][0]`
abbrev pub width_of : Circuit → String → M ℕ
width_of c n = do (width, _) ← found (lookup n c.signals); pure width

-- `fixed`, the values that the inputs have in cycle `t`
abbrev pub fixed_at : Dict ℕ → Option Reset → Bool → ℕ → Dict ℕ
fixed_at assumptions none induction t = assumptions
fixed_at assumptions (some r) induction t =
    put r.signal (if not induction && ltb t r.cycles then r.active else 1 - r.active) assumptions

-- `q.const(fixed[n], width) if n in fixed else q.bits(width)`
abbrev pub input_bits : ℕ → Option ℕ → M Bits
input_bits width (some v) = pure (const v width)
input_bits width none = bits width

unfoldable pub input_frame : Circuit → Dict ℕ → List String → M (Dict Bits)
unfolding bits const
input_frame c fixed [] = pure []
input_frame c fixed (n ∷ names) = do
  width ← width_of c n
  v ← input_bits width (lookup n fixed)
  rest ← input_frame c fixed names
  pure ((n, v) ∷ rest)

-- `self.lower(root, t)`: the bits, and the frames with the cache of frame `t` after it
unfoldable pub lower_at : Circuit → ℕ → ℕ → Frames → M (Bits × Frames)
unfolding lower
lower_at c root t frames = do
  (frame, cache) ← found (get_elem? frames t)
  (v, cache') ← lower c.nodes (λ n. lookup n frame) root cache
  pure (v, set frames t (frame, cache'))

abbrev item_le : String × ℕ → String × ℕ → Bool
item_le (n, i) (m, j) = name_le n m

-- `self.lower(expr, t - 1) if t else q.bits(self.c.signals[n][0])`
unfoldable pub register_bits : Circuit → String → ℕ → ℕ → Frames → M (Bits × Frames)
unfolding lower_at bits
register_bits c n root zero frames = do width ← width_of c n; v ← bits width; pure (v, frames)
register_bits c n root (suc t) frames = lower_at c root t frames

-- `for n, expr in sorted(self.c.next_state.items())`
unfoldable pub register_frame :
    Circuit → ℕ → List (String × ℕ) → Dict Bits → Frames → M (Dict Bits × Frames)
unfolding register_bits
register_frame c t [] frame frames = pure (frame, frames)
register_frame c t ((n, root) ∷ rest) frame frames = do
  (v, frames') ← register_bits c n root t frames
  register_frame c t rest (put n v frame) frames'

-- `frame[n] = v` of frame `t`, which is in `self.frames` by then
unfoldable pub put_at : ℕ → String → Bits → Frames → M Frames
put_at t n v frames = do
  (frame, cache) ← found (get_elem? frames t)
  pure (set frames t (put n v frame, cache))

-- `for n in self.c.comb_order`
unfoldable pub wire_frames : Circuit → ℕ → List String → Frames → M Frames
unfolding lower_at put_at
wire_frames c t [] frames = pure frames
wire_frames c t (n ∷ names) frames = do
  root ← found (lookup n c.combinational)
  (v, frames') ← lower_at c root t frames
  frames'' ← put_at t n v frames'
  wire_frames c t names frames''

-- `self.frames[t - lag][name]`; an index below 0 counts from the end.
unfoldable pub bits_at : Frames → ℕ → ℕ → String → M Bits
bits_at frames t lag name = do
  (frame, _) ← found (
      if leb lag t
      then get_elem? frames (t - lag)
      else if leb (lag - t) (length frames)
      then get_elem? frames (length frames - (lag - t))
      else none)
  found (lookup name frame)

module _ {ℓ} {P : Type ℓ} (c : Circuit) (spec : Spec P) where
  unfoldable pub append : Bool → Frames → M Frames
  unfolding check_deadline input_frame register_frame wire_frames
  append induction frames = do
    check_deadline
    inputs ←
        input_frame c (fixed_at spec.assumptions spec.reset induction (length frames))
          (sorted c.inputs)
    (frame, frames') ← register_frame c (length frames) (sort_by item_le c.next_state) inputs frames
    wire_frames c (length frames) c.comb_order (frames' ++ (frame, no_bits) ∷ [])

  -- `for _ in range(n): unroll.append()`
  unfoldable pub append_all : ℕ → Bool → Frames → M Frames
  unfolding append
  append_all zero induction frames = pure frames
  append_all (suc n) induction frames = do
    frames' ← append induction frames
    append_all n induction frames'

-- `q.all_(q.equal(...) for g in prop["when"])`, from `result`: the generator runs between the gates.
unfoldable pub guard_from : Circuit → Frames → ℕ → ℤ → List Guard → M ℤ
unfolding and_ equal const bits_at
guard_from c frames t result [] = pure result
guard_from c frames t result (g ∷ guards) = do
  v ← bits_at frames t g.lag g.signal
  width ← width_of c g.signal
  e ← equal v (const g.equals width)
  r ← and_ result e
  guard_from c frames t r guards

unfoldable pub expected_bits : Circuit → Property → Frames → ℕ → Expected → M Bits
unfolding bits_at const
expected_bits c p frames t (from_source s) = bits_at frames t p.latency s
expected_bits c p frames t (constant v) = do width ← width_of c p.sink; pure (const v width)

unfoldable pub property : Circuit → Property → Frames → ℕ → M (ℤ × ℤ)
unfolding guard_from expected_bits or_ equal
property c p frames t = do
  guard ← guard_from c frames t one p.when
  rhs ← expected_bits c p frames t p.expected
  sink ← bits_at frames t 0 p.sink
  same ← equal sink rhs
  predicate ← or_ (neg guard) same
  pure (guard, predicate)
