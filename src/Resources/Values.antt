-- ===== src/Resources/Values.antt =====
-- What a program that gives a result has passed on its way.
use loco.Base.{◌≡◌, refl, Bool, true, false, not, Option, none, some, List}
use loco.Resources.{Resource, Program, ◌>>=◌, or_exit, acquire_or_exit, unless_exit, or_release}
use loco.Files.{when}

pub bind-some :
    {A B : Type 0} (m : Program A) (f : A → Program B) (b : B)
    → (m >>= f).0 ≡ some b
    → (a : A) × (m.0 ≡ some a) × ((f a).0 ≡ some b)
unfolding ◌>>=◌
bind-some (none, es) f b e = cc e
bind-some (some a, es) f b e = (a, refl, e)

pub or_exit-some :
    {A : Type 0} (cleanup : List Resource) (o : Option A) (a : A)
    → (or_exit cleanup o).0 ≡ some a
    → o ≡ some a
unfolding or_exit
or_exit-some cleanup none a e = cc e
or_exit-some cleanup (some b) a e = e

pub acquire-some :
    {A : Type 0} (r : Resource) (cleanup : List Resource) (o : Option A) (a : A)
    → (acquire_or_exit r cleanup o).0 ≡ some a
    → o ≡ some a
unfolding acquire_or_exit
acquire-some r cleanup none a e = cc e
acquire-some r cleanup (some b) a e = e

pub unless-some :
    (cleanup : List Resource) (b : Bool) (u : Unit {0})
    → (unless_exit cleanup b).0 ≡ some u
    → b ≡ false
unfolding unless_exit
unless-some cleanup true u e = cc e
unless-some cleanup false u e = refl

pub unless_not-some :
    (cleanup : List Resource) (b : Bool) (u : Unit {0})
    → (unless_exit cleanup (not b)).0 ≡ some u
    → b ≡ true
unfolding unless_exit
unless_not-some cleanup true u e = refl
unless_not-some cleanup false u e = cc e

pub or_release-some :
    {A : Type 0} (cleanup : List Resource) (p : Program A) (a : A)
    → (or_release cleanup p).0 ≡ some a
    → p.0 ≡ some a
unfolding or_release
or_release-some cleanup (none, es) a e = cc e
or_release-some cleanup (some b, es) a e = e

pub when-some : {A : Type 0} (b : Bool) (a c : A) → when b a ≡ some c → a ≡ c
when-some true a c e = cc e
when-some false a c e = cc e

pub when-true : (b : Bool) (u : Unit {0}) → when b tt ≡ some u → b ≡ true
when-true true u e = refl
when-true false u e = cc e
