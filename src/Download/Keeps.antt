-- ===== src/Download/Keeps.antt =====
-- src/main.c: a predicate on the session that a step of a round ends with, and its rules.
use loco.Base.{Bytes, ◌≡◌, refl, Bool, true, false, if◌then◌else◌}
use loco.Download.State.{Torrent, Answers, Session, Ended, stay, leave}
use loco.Download.Round.{and_then}

pub data Keeps (P : Session → Type 0) : Ended → Type 0 where
  stays : {s : Session} → P s → Keeps P (stay s)
  leaves : {s : Session} → P s → Keeps P (leave s)

module _ {P : Session → Type 0} where
  pub Keeps-if :
      (b : Bool) {x y : Ended}
      → (b ≡ true → Keeps P x)
      → (b ≡ false → Keeps P y)
      → Keeps P (if b then x else y)
  Keeps-if true f g = f refl
  Keeps-if false f g = g refl

  pub Keeps-and_then :
      (sha1 : Bytes → Bytes) (t : Torrent) (a : Answers) {e : Ended} {f : Session → Ended}
      → Keeps P e
      → ((s : Session) → P s → Keeps P (f s))
      → Keeps P (and_then sha1 t a e f)
  Keeps-and_then sha1 t a (stays v) k = k _ v
  Keeps-and_then sha1 t a (leaves v) k = leaves v
