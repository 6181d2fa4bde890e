-- ===== src/Fs/Path/Rounds.antt =====
-- The walk along a path ends by itself: each round goes on behind where it started.
use deprecat_os.Prelude.{
  ℕ, zero, suc, ◌+◌, ◌-◌, ◌≤◌, ◌<◌, ◌≡◌, refl, Bool, arith, ◌==◌, ltb, leb, not, case_option, false,
  if◌then◌else◌,
}
use deprecat_os.Fs.Bytes.{Bytes}
use deprecat_os.Fs.Directory.Block.{name_len}
use deprecat_os.Fs.Mount.Table.{S, pure, ◌>>=◌}
use deprecat_os.Fs.Path.Step.{Node, enter}
use deprecat_os.Fs.Path.{
  Walked, refused, arrived, component_end, component, after_component, component_round, walk,
}

after_same :
    (p : Bytes) (len : ℕ) (follow : Bool) (ind j : ℕ) (f h : ℕ → ℕ → ℕ → S Walked) (node : Node)
    → f (j + 1) node.fs node.n ≡ h (j + 1) node.fs node.n
    → after_component p len follow ind j f node ≡ after_component p len follow ind j h node
unfolding after_component
after_same p len follow ind j f h node e = rw (after_component, e) refl

end_after : (p : Bytes) (len ind : ℕ) → ind ≤ component_end p len ind
unfolding component_end
end_after p len ind = omega arith

-- A round, by what it does at an empty component and behind one that was found.
abbrev round_with : Bytes → ℕ → ℕ → ℕ → ℕ → S Walked → (Node → S Walked) → S Walked
round_with p len ind fs n skip go =
    let j = component_end p len ind in
    if not (ltb ind len)
    then pure (arrived fs n)
    else if j == ind
    then skip
    else if leb name_len (j - ind)
    then pure refused
    else enter fs n (component p ind j) >>= λ found. case_option found (pure refused) go

round_same :
    (p : Bytes) (len : ℕ) (follow : Bool) (f h : ℕ → ℕ → ℕ → S Walked) (ind fs n : ℕ)
    → ((j fs' n' : ℕ) → ind < j → f j fs' n' ≡ h j fs' n')
    → component_round p len follow f ind fs n ≡ component_round p len follow h ind fs n
unfolding component_round
round_same p len follow f h ind fs n same =
    let j = component_end p len ind in
    let later : ind < j + 1 = omega (arith, end_after p len ind) in
    let skip = same (j + 1) fs n later in
    let go : (node : Node)
        → after_component p len follow ind j f node ≡ after_component p len follow ind j h node =
      λ node. after_same p len follow ind j f h node (same (j + 1) node.fs node.n later) in
    λ t. round_with p len ind fs n (skip t) (λ node. go node t)

walk_ends :
    (p : Bytes) (len : ℕ) (follow : Bool) (m k ind fs n : ℕ)
    → len ≤ m + ind
    → len ≤ k + ind
    → walk m p len follow ind fs n ≡ walk k p len follow ind fs n
unfolding walk
walk_ends p len follow zero zero ind fs n a b = refl
walk_ends p len follow zero (suc k) ind fs n a b =
    let over : ltb ind len ≡ false = ground arith in rw (component_round, over) refl
walk_ends p len follow (suc m) zero ind fs n a b =
    let over : ltb ind len ≡ false = ground arith in rw (component_round, over) refl
walk_ends p len follow (suc m) (suc k) ind fs n a b =
    round_same p len follow (walk m p len follow) (walk k p len follow) ind fs n
      (λ j fs' n' less. walk_ends p len follow m k j fs' n' (omega arith) (omega arith))

-- With any larger number of rounds than the path is long, the walk along it is the same.
pub walk_end :
    (p : Bytes) (len : ℕ) (follow : Bool) (m ind fs n : ℕ)
    → len ≤ m
    → walk m p len follow ind fs n ≡ walk len p len follow ind fs n
walk_end p len follow m ind fs n h =
    walk_ends p len follow m len ind fs n (omega arith) (omega arith)
