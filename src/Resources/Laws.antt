-- ===== src/Resources/Laws.antt =====
-- What a program holds at its end, from what its parts hold at theirs.
use loco.Base.{Bool, true, false, ◌≡◌, refl, ap, ◌∙◌, Option, none, some, List, [], ◌∷◌, ◌++◌}
use loco.Resources.{
  or_release, all_released, or_exit, acquire_or_exit, unless_exit, Resource, Event, Program, ◌>>=◌,
  after, settle,
}

-- From what is held, to what is held with the result, or to what is left after an exit.
pub data Unwinds {A : Type 0} (held left : List Resource) (kept : A → List Resource)
    : Program A → Type 0 where
  carries :
      {a : A} {es : List Event}
      → settle es (some held) ≡ some (kept a)
      → Unwinds held left kept (some a, es)
  exits : {es : List Event} → settle es (some held) ≡ some left → Unwinds held left kept (none, es)

settle-append :
    (es fs : List Event) (held : Option (List Resource))
    → settle (es ++ fs) held ≡ settle fs (settle es held)
settle-append [] fs held = refl
settle-append (e ∷ es) fs held = settle-append es fs (after e held)

Unwinds-behind :
    {B : Type 0} {held left mid : List Resource} {kept : B → List Resource} (es : List Event)
    {p : Program B}
    → settle es (some held) ≡ some mid
    → Unwinds mid left kept p
    → Unwinds held left kept (p.0, es ++ p.1)
Unwinds-behind {held} es e (carries {es = fs} e') =
    carries (settle-append es fs (some held) ∙ ap (settle fs) e ∙ e')
Unwinds-behind {held} es e (exits {es = fs} e') =
    exits (settle-append es fs (some held) ∙ ap (settle fs) e ∙ e')

pub Unwinds-continued :
    {A B : Type 0} {held left : List Resource} {kept : A → List Resource}
    {kept' : B → List Resource} {m : Program A} {f : A → Program B}
    → Unwinds held left kept m
    → ((a : A) → Unwinds (kept a) left kept' (f a))
    → Unwinds held left kept' (m >>= f)
unfolding ◌>>=◌
Unwinds-continued (carries {a} {es} e) k = Unwinds-behind es e (k a)
Unwinds-continued (exits e) k = exits e

-- The cleanup gives back what is held, down to what is left.
abbrev pub Clears : List Resource → List Resource → List Resource → Type 0
Clears held left cleanup = settle (all_released cleanup) (some held) ≡ some left

pub or_exit-Unwinds :
    {A : Type 0} {held left : List Resource} (cleanup : List Resource) (o : Option A)
    → Clears held left cleanup
    → Unwinds held left (λ _. held) (or_exit cleanup o)
unfolding or_exit
or_exit-Unwinds cleanup none h = exits h
or_exit-Unwinds cleanup (some a) h = carries refl

pub acquire-Unwinds :
    {A : Type 0} {held left : List Resource} (cleanup : List Resource) (r : Resource) (o : Option A)
    → Clears held left cleanup
    → Unwinds held left (λ _. r ∷ held) (acquire_or_exit r cleanup o)
unfolding acquire_or_exit
acquire-Unwinds cleanup r none h = exits h
acquire-Unwinds cleanup r (some a) h = carries refl

pub unless-Unwinds :
    {held left : List Resource} (cleanup : List Resource) (b : Bool)
    → Clears held left cleanup
    → Unwinds held left (λ _. held) (unless_exit cleanup b)
unfolding unless_exit
unless-Unwinds cleanup true h = exits h
unless-Unwinds cleanup false h = carries refl

pub or_release-Unwinds :
    {A : Type 0} {held left : List Resource} {kept : A → List Resource} {p : Program A}
    (cleanup : List Resource)
    → Clears held left cleanup
    → Unwinds held held kept p
    → Unwinds held left kept (or_release cleanup p)
unfolding or_release
or_release-Unwinds cleanup h (carries e) = carries e
or_release-Unwinds {held} cleanup h (exits {es} e) =
    exits (
      settle-append es (all_released cleanup) (some held)
      ∙ ap (settle (all_released cleanup)) e
      ∙ h)
