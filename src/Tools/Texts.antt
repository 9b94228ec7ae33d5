-- ===== src/Tools/Texts.antt =====
-- The methods of Python's `str` that worker_agent/tools calls with a separator or a pattern that is
-- not empty.
use chat_aiagent.Prelude.{
  ℕ, zero, suc, ◌≡◌, refl, true, false, Option, none, some, [], ◌∷◌, ◌++◌, Text, reverse, length,
  drop, starts_with, ◌==◌, if◌then◌else◌, arith, has_char, ==_iff,
}

abbrev consed : ℕ → Option (Text × Text) → Option (Text × Text)
consed c none = none
consed c (some (a, b)) = some (c ∷ a, b)

-- `t.split(sep, 1)`, where it gives two parts
unfoldable pub cut : Text → Text → Option (Text × Text)
cut sep [] = none
cut sep (c ∷ t) =
    let rest = cut sep t in
    if starts_with (c ∷ t) sep then some ([], drop (length sep) (c ∷ t)) else consed c rest

-- `t.rsplit(sep, 1)` for one character, where it gives two parts
unfoldable pub rcut : ℕ → Text → Option (Text × Text)
rcut sep [] = none
rcut sep (c ∷ t) = elim (rcut sep t) [
  | some (a, b) ↦ some (c ∷ a, b)
  | none ↦ if c == sep then some ([], t) else none
]

-- The rest of `t.replace(pattern, by)`, of which the first `skip` characters are replaced already.
replaced : Text → Text → ℕ → Text → Text
replaced pattern by skip [] = []
replaced pattern by (suc skip) (c ∷ t) = replaced pattern by skip t
replaced pattern by zero (c ∷ t) =
    let kept = replaced pattern by zero t in
    let over = replaced pattern by (length (drop 1 pattern)) t in
    if starts_with (c ∷ t) pattern then by ++ over else c ∷ kept

unfoldable pub replace : Text → Text → Text → Text
unfolding replaced
replace pattern by t = replaced pattern by zero t

abbrev dropped : ℕ → Text → Text
dropped sep [] = []
dropped sep (c ∷ t) = let rest = dropped sep t in if c == sep then rest else c ∷ t

-- `t.rstrip(c)` for one character
unfoldable pub rstrip : ℕ → Text → Text
rstrip sep t = reverse (dropped sep (reverse t))

pub starts_with-append : (p t : Text) → starts_with (p ++ t) p ≡ true
starts_with-append [] t = refl
starts_with-append (c ∷ p) t = ground (arith, starts_with-append p t, (==_iff c c).1)

pub drop-append : (p t : Text) → drop (length p) (p ++ t) ≡ t
drop-append [] t = refl
drop-append (c ∷ p) t = drop-append p t

-- A text is cut where it was joined, if what stands before lacks the first character of the separator.
pub cut-append :
    (c : ℕ) (sep a b : Text)
    → has_char c a ≡ false
    → cut (c ∷ sep) (a ++ ((c ∷ sep) ++ b)) ≡ some (a, b)
unfolding cut
cut-append c sep [] b h =
    ground (arith, starts_with-append sep b, drop-append sep b, (==_iff c c).1)
cut-append c sep (d ∷ a) b h = ground (arith, cut-append c sep a b, (==_iff d c).0)
