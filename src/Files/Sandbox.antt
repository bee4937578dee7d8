-- ===== src/Files/Sandbox.antt =====
-- crates/mymesh-files/src/sandbox.rs: a path given by a peer is resolved under a root. A path is the
-- list of its names; the root's own names are what `canonicalize` gave.
use my_mesh.Base.{
  inl, inr, Option-cases, ◌≡◌, refl, sym, ap, ◌∙◌, Bool, true, false, not, ◌||◌, Option, none, some,
  List, [], ◌∷◌, ◌++◌, append_assoc, append-nil, arith, if◌then◌else◌, ◌==◌, nat_eq, text_eq,
  permission_denied, Result, ok, err, Text, text, starts_with,
}

-- `std::path::Component`, without the prefixes of Windows.
pub data Component : Type 0 where
  root_dir cur_dir parent_dir : Component
  normal : Text → Component

-- The pieces of a text between its slashes.
unfoldable pub pieces : Text → List Text
pieces [] = [] ∷ []
pieces (c ∷ s) = elim (pieces s) [
  | [] ↦ (c ∷ []) ∷ []
  | p ∷ ps ↦ if c == 47 then [] ∷ p ∷ ps else (c ∷ p) ∷ ps
]

unfoldable pub of_pieces : List Text → List Component
of_pieces [] = []
of_pieces (p ∷ ps) =
    let rest = of_pieces ps in
    if p == [] || p == text "."
    then rest
    else if p == text ".."
    then parent_dir ∷ rest
    else normal p ∷ rest

-- What stands before the pieces: a slash, or a dot as the first piece.
unfoldable pub leading : Text → List Component
unfolding pieces
leading s =
    if starts_with s (text "/")
    then root_dir ∷ []
    else if starts_with s (text "./") || s == text "."
    then cur_dir ∷ []
    else []

-- `Path::components`.
unfoldable pub components : Text → List Component
unfolding pieces of_pieces leading
components s = leading s ++ of_pieces (pieces s)

-- `pop`: what is left, or nothing where there is no parent.
unfoldable pub pop : List Text → Option (List Text)
pop [] = none
pop (x ∷ []) = some []
pop (x ∷ y ∷ s) = elim (pop (y ∷ s)) [ none ↦ none | some t ↦ some (x ∷ t) ]

-- `starts_with`, name by name.
unfoldable pub is_under : List Text → List Text → Bool
is_under p [] = true
is_under [] (r ∷ root) = false
is_under (x ∷ p) (r ∷ root) = let rest = is_under p root in if x == r then rest else false

abbrev pub escapes : Result (List Text)
escapes = err (permission_denied (text "path escapes sandbox"))

-- The loop of `resolve`, from the path that it has so far.
unfoldable pub walk : List Text → List Text → List Component → Result (List Text)
unfolding pop is_under
walk root out [] = if not (is_under out root) then escapes else ok out
walk root out (normal s ∷ cs) = walk root (out ++ s ∷ []) cs
walk root out (cur_dir ∷ cs) = walk root out cs
walk root out (root_dir ∷ cs) = walk root out cs
walk root out (parent_dir ∷ cs) = elim (pop out) [
  | none ↦ escapes
  | some out' ↦ if not (is_under out' root) then escapes else walk root out' cs
]

unfoldable pub resolve : List Text → Text → Result (List Text)
unfolding walk components
resolve root remote = walk root root (components remote)

-- What a path means without any root: its names after each `..` has taken away the name before it;
-- nothing where there is no name to take.
unfoldable pub normalise : List Text → List Component → Option (List Text)
unfolding pop
normalise names [] = some names
normalise names (normal s ∷ cs) = normalise (names ++ s ∷ []) cs
normalise names (cur_dir ∷ cs) = normalise names cs
normalise names (root_dir ∷ cs) = normalise names cs
normalise names (parent_dir ∷ cs) = elim (pop names) [
  | none ↦ none
  | some names' ↦ normalise names' cs
]

is_under-append : (root r : List Text) → is_under (root ++ r) root ≡ true
unfolding is_under
is_under-append [] r = ground arith
is_under-append (x ∷ root) r = ground (arith, is_under-append root r)

-- What `pop` leaves of a name and those after it.
init : Text → List Text → List Text
init x [] = []
init x (y ∷ s) = x ∷ init y s

pop-init : (x : Text) (s : List Text) → pop (x ∷ s) ≡ some (init x s)
unfolding pop init
pop-init x [] = refl
pop-init x (y ∷ s) = rw (pop-init y s) refl

pop-append : (root r : List Text) (a : Text) → pop (root ++ a ∷ r) ≡ some (root ++ init a r)
unfolding pop
pop-append [] r a = pop-init a r
pop-append (x ∷ []) r a = rw (pop-init a r) refl
pop-append (x ∷ y ∷ root) r a = rw (pop-append (y ∷ root) r a) refl

-- A root is not under what is left of it.
is_under-init : (x : Text) (root : List Text) → is_under (init x root) (x ∷ root) ≡ false
unfolding is_under init
is_under-init x [] = refl
is_under-init x (y ∷ root) = ground (arith, is_under-init y root)

-- From the root itself no name can be taken.
walk_out : (root : List Text) (cs : List Component) → walk root root (parent_dir ∷ cs) ≡ escapes
unfolding walk
walk_out [] cs = refl
walk_out (x ∷ root) cs = rw (pop-init x root, walk, is_under-init x root) refl

walk_back :
    (root r : List Text) (a : Text) (cs : List Component)
    → walk root (root ++ a ∷ r) (parent_dir ∷ cs) ≡ walk root (root ++ init a r) cs
unfolding walk
walk_back root r a cs = rw (pop-append root r a, walk, is_under-append root (init a r)) refl

-- The loop does, under the root, what the path means without one.
walk_lem :
    (root names : List Text) (cs : List Component)
    → walk root (root ++ names) cs
      ≡ elim (normalise names cs) [ none ↦ escapes | some t ↦ ok (root ++ t) ]
unfolding walk normalise
walk_lem root names [] = rw (is_under-append root names) refl
walk_lem root names (normal s ∷ cs) =
    ap (λ p. walk root p cs) (append_assoc root names (s ∷ [])) ∙ walk_lem root (names ++ s ∷ []) cs
walk_lem root names (cur_dir ∷ cs) = walk_lem root names cs
walk_lem root names (root_dir ∷ cs) = walk_lem root names cs
walk_lem root [] (parent_dir ∷ cs) = rw (append-nil root) (walk_out root cs)
walk_lem root (a ∷ r) (parent_dir ∷ cs) =
    walk_back root r a cs ∙ rw (pop-init a r) (walk_lem root (init a r) cs)

-- A path given by a peer resolves to the root followed by what it means without a root, and is
-- refused exactly where it means nothing: whether it is refused depends on no root, and no path
-- leads out of one.
pub resolve_lem :
    (root : List Text) (remote : Text)
    → resolve root remote
      ≡ elim (normalise [] (components remote)) [ none ↦ escapes | some t ↦ ok (root ++ t) ]
unfolding resolve
resolve_lem root remote =
    ap (λ p. walk root p (components remote)) (sym (append-nil root))
    ∙ walk_lem root [] (components remote)

-- What `resolve` gives is under the root.
pub resolve-is_under :
    (root p : List Text) (remote : Text) → resolve root remote ≡ ok p → is_under p root ≡ true
resolve-is_under root p remote e =
    let shown = resolve_lem root remote in
    elim (Option-cases (normalise [] (components remote))) [
      | inl n ↦ absurd (ground (arith, e, shown, n))
      | inr (t, n) ↦ ground (arith, e, shown, n, is_under-append root t)
    ]
