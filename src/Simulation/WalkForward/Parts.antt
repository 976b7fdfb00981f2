-- ===== src/Simulation/WalkForward/Parts.antt =====
-- The parts of the bars that the windows of a run take.
use native.Mathlib.Nat.{mul-div-le, le-div_iff_mul-le, mul-le-mul_right}
use fin_skill_os.Prelude.{
  ℕ, zero, suc, ◌+◌, ◌-◌, ◌*◌, ◌/◌, ◌≡◌, refl, sym, ap, ◌∙◌, subst, ◌≤◌, List, [], ◌∷◌, ◌++◌, ok,
  >>=-eq-ok, ok-one, length, length-drop, length-take, take, drop, take-drop, drop-drop, drop_all,
  arith,
}
use fin_skill_os.Dict.{Dict}
use fin_skill_os.Simulation.Floats.{Floats, Texts}
use fin_skill_os.Simulation.Conditions.{Feature}
use fin_skill_os.Simulation.Parser.{StrategySpec}
use fin_skill_os.Simulation.Features.{Bar}
use fin_skill_os.Simulation.State.{SimulationResult}
use fin_skill_os.Simulation.Engine.{simulate}
use fin_skill_os.Simulation.WalkForward.{
  WalkForwardWindow, slice, upper, window, run_window, windows_from, walk_forward,
}

abbrev pub concat {ℓ} : {A : Type ℓ} → List (List A) → List A
concat [] = []
concat (xs ∷ xss) = xs ++ concat xss

module _ {ℓ} {A : Type ℓ} where
  length-slice : (lo hi : ℕ) (xs : List A) → hi ≤ length xs → length (slice lo hi xs) ≡ hi - lo
  length-slice lo hi xs h =
      length-take (hi - lo) (drop lo xs)
        (subst (λ k. hi - lo ≤ k) (sym (length-drop lo xs)) (ground arith))

  slice-drop : (lo hi : ℕ) (xs : List A) → lo ≤ hi → slice lo hi xs ++ drop hi xs ≡ drop lo xs
  slice-drop lo hi xs h =
      ap (λ l. slice lo hi xs ++ l)
        (ap (λ k. drop k xs) (back lo hi h) ∙ sym (drop-drop (hi - lo) lo xs))
      ∙ take-drop (hi - lo) (drop lo xs)
    where
      back : (lo hi : ℕ) → lo ≤ hi → hi ≡ lo + (hi - lo)
      back lo hi h = ground arith

-- Where the window after `i` others begins, when `left` are to come.
abbrev begin : ℕ → ℕ → ℕ → ℕ → ℕ
begin n size zero i = n
begin n size (suc left) i = i * size

least_size : (n windows : ℕ) → 2 ≤ windows → windows * 20 ≤ n → 20 ≤ n / windows
least_size n windows h k = (le-div_iff_mul-le (ground arith)).1 (ground arith)

fits :
    (n windows size left i : ℕ)
    → suc left + i ≡ windows
    → windows * size ≤ n
    → (i * size + size ≤ upper n windows size i)
      × (upper n windows size i ≤ n)
      × (upper n windows size i ≡ begin n size left (suc i))
fits n windows size zero i e h =
    let up = mul-le-mul_right {m = suc i} {n = windows} size (ground arith) in ground (arith, up)
fits n windows size (suc left) i e h =
    let up = mul-le-mul_right {m = suc i} {n = windows} size (ground arith) in ground (arith, up)

module _ {F : Type 0} (fl : Floats F) (tx : Texts) (spec : StrategySpec F)
    (external : List (Dict (Feature F))) where
  -- Windows from a number and a bar on: each is the simulation of its part of the bars, on the
  -- external features of that part.
  pub data Windows : ℕ → ℕ → List (List (Bar F)) → List (WalkForwardWindow F) → Type 0 where
    no_more : {i lo : ℕ} → Windows i lo [] []
    window_of :
        {i lo : ℕ} {part : List (Bar F)} {parts : List (List (Bar F))} {w : WalkForwardWindow F}
        {ws : List (WalkForwardWindow F)} (r : SimulationResult F)
        → 20 ≤ length part
        → simulate fl tx spec part (take (length part) (drop lo external)) ≡ ok r
        → window fl i part r ≡ ok w
        → Windows (suc i) (lo + length part) parts ws
        → Windows i lo (part ∷ parts) (w ∷ ws)

  abbrev PartsFrom : ℕ → ℕ → List (Bar F) → ℕ → List (WalkForwardWindow F) → Type 0
  PartsFrom i lo bars left ws =
      (parts : List (List (Bar F))) × (concat parts ≡ drop lo bars)
      × (length parts ≡ left)
      × Windows i lo parts ws

  step-PartsFrom :
      (i lo hi left : ℕ) (bars : List (Bar F)) {w : WalkForwardWindow F}
      {ws : List (WalkForwardWindow F)}
      → lo + 20 ≤ hi
      → hi ≤ length bars
      → run_window fl tx spec i (slice lo hi bars) (slice lo hi external) ≡ ok w
      → PartsFrom (suc i) hi bars left ws
      → PartsFrom i lo bars (suc left) (w ∷ ws)
  unfolding run_window
  step-PartsFrom i lo hi left bars {w} {ws} h k e (parts, joined, many, rest) =
      let long = length-slice lo hi bars k in
      let (r, er, ew) =
        >>=-eq-ok (simulate fl tx spec (slice lo hi bars) (slice lo hi external)) _ e in
      (
        slice lo hi bars ∷ parts,
        ap (λ l. slice lo hi bars ++ l) joined ∙ slice-drop lo hi bars (ground arith),
        ap suc many,
        window_of r (ground (arith, long))
            (ap (λ k. simulate fl tx spec (slice lo hi bars) (take k (drop lo external))) long ∙ er)
            ew (subst (λ k. Windows (suc i) k parts ws) (ground (arith, long)) rest),
      )

  windows_from-PartsFrom :
      (windows size left i : ℕ) (bars : List (Bar F)) (ws : List (WalkForwardWindow F))
      → left + i ≡ windows
      → 20 ≤ size
      → windows * size ≤ length bars
      → windows_from fl tx spec left i windows size bars external ≡ ok ws
      → PartsFrom i (begin (length bars) size left i) bars left ws
  unfolding windows_from
  windows_from-PartsFrom windows size zero i bars ws e k h g =
      ([], sym (drop_all bars), refl, subst (Windows i (length bars) []) (ok-one _ _ g) no_more)
  windows_from-PartsFrom windows size (suc left) i bars ws e k h g =
      let hi = upper (length bars) windows size i in
      let (room, inside, next) = fits (length bars) windows size left i e h in
      let (w, ew, g1) =
        >>=-eq-ok
          (run_window fl tx spec i (slice (i * size) hi bars) (slice (i * size) hi external)) _ g in
      let (more, em, g2) =
        >>=-eq-ok (windows_from fl tx spec left (suc i) windows size bars external) _ g1 in
      let rest = windows_from-PartsFrom windows size left (suc i) bars more (ground arith) k h em in
      subst (PartsFrom i (i * size) bars (suc left)) (ok-one _ _ g2) (
        step-PartsFrom i (i * size) hi left bars (ground arith) inside ew
          (subst (λ lo. PartsFrom (suc i) lo bars left more) (sym next) rest))

  enough :
      (windows : ℕ) (bars : List (Bar F))
      → 2 ≤ windows
      → windows * 20 ≤ length bars
      → walk_forward fl tx spec windows bars external
        ≡ windows_from fl tx spec windows 0 windows (length bars / windows) bars external
  unfolding walk_forward
  enough windows bars h k = ground arith

  -- The walk-forward run of at least two windows over at least 20 bars per window, when it returns,
  -- parts the bars into as many consecutive parts as windows, none left out and none in two windows;
  -- each part has at least 20 bars, and its window is numbered in this order and holds what a fresh
  -- simulation of this part alone, on its external features, gives.
  pub walk_forward-Windows :
      (windows : ℕ) (bars : List (Bar F)) (ws : List (WalkForwardWindow F))
      → 2 ≤ windows
      → windows * 20 ≤ length bars
      → walk_forward fl tx spec windows bars external ≡ ok ws
      → (parts : List (List (Bar F))) × (concat parts ≡ bars)
        × (length parts ≡ windows)
        × Windows 0 0 parts ws
  walk_forward-Windows zero bars ws h k e = absurd (ground arith)
  walk_forward-Windows (suc left) bars ws h k e =
      subst (λ lo. PartsFrom 0 lo bars (suc left) ws) (ground arith)
        (windows_from-PartsFrom (suc left) (length bars / suc left) (suc left) 0 bars ws
          (ground arith) (least_size (length bars) (suc left) h k)
          (mul-div-le (length bars) (suc left)) (sym (enough (suc left) bars h k) ∙ e))
