-- ===== src/Router/Priority.antt =====
-- `calculatePriority` of internal/router/router.go: a lower number comes first.
use api_gateway_go.Base.{
  ℕ, ◌+◌, ◌*◌, ◌≤◌, ◌<◌, ◌≡◌, true, false, [], ◌∷◌, Bytes, codes, length, arith, if◌then◌else◌, ℤ,
  sub_ℕ, ◌<ℤ◌, sub_ℕ_lt,
}
use api_gateway_go.Router.Text.{infix?, prefix?, count}

-- What wildcards add.
wildcard_penalty : Bytes → ℕ
wildcard_penalty pattern =
    if infix? (codes "**") pattern then 10000 else if infix? (codes "*") pattern then 5000 else 0

-- The sum may be negative: a pattern may have more than 1000 bytes.
unfoldable pub calculate_priority : Bytes → ℤ
unfolding wildcard_penalty
calculate_priority pattern =
    sub_ℕ (1000 + wildcard_penalty pattern + count b'{' pattern * 1000) (length pattern)

-- The order that the comment of `calculatePriority` lists: exact patterns, patterns with
-- parameters, with single wildcards, with double wildcards.
abbrev pub rank : Bytes → ℕ
rank pattern =
    if infix? (codes "**") pattern
    then 3
    else if infix? (codes "*") pattern
    then 2
    else if infix? (codes "{") pattern
    then 1
    else 0

infix-count :
    (c : ℕ) (s : Bytes)
    → (infix? (c ∷ []) s ≡ true → 0 < count c s) × (infix? (c ∷ []) s ≡ false → count c s ≡ 0)
unfolding infix? prefix? count
infix-count c [] = ground arith
infix-count c (b ∷ s) = ground (arith, infix-count c s)

-- The documented order holds between nonempty patterns of at most 1000 bytes and at most four
-- opening braces: the pattern of the earlier kind gets the smaller number.
pub priority-rank :
    (p q : Bytes)
    → 0 < length p
    → length p ≤ 1000
    → count b'{' p ≤ 4
    → 0 < length q
    → length q ≤ 1000
    → count b'{' q ≤ 4
    → rank p < rank q
    → calculate_priority p <ℤ calculate_priority q
unfolding calculate_priority
priority-rank p q p0 p1 p2 q0 q1 q2 h =
    sub_ℕ_lt (1000 + wildcard_penalty p + count b'{' p * 1000) (length p)
      (1000 + wildcard_penalty q + count b'{' q * 1000) (length q)
      (ground (arith, infix-count b'{' p, infix-count b'{' q))
