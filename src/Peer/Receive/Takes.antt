-- ===== src/Peer/Receive/Takes.antt =====
-- What `recv` gives to the loops of `receive_peer_wire_message`: bytes of the peer, in order.
use loco.Base.{
  ℕ, zero, suc, ◌-◌, ◌≤◌, ◌≡◌, refl, sym, ap, subst, ◌∙◌, Bool, true, false, List, [], ◌∷◌, ◌++◌,
  append_assoc, Bytes, arith, take, drop, length, length-take, length-append, ◌==◌, ==_iff,
  if◌then◌else◌,
}
use loco.Peer.Receive.{
  RecvAnswer, received, closed, interrupted, broken, Socket, Reception, got, refused, waiting,
  Receiver, continue_with, prepend, recv_loop,
}

-- What is got is what the bytes taken from the peer say.
pub data Takes {A : Type 0} (P : A → Bytes → Type 0) (incoming : Bytes) : Reception A → Type 0 where
  takes :
      {a : A} {s : Socket} (w : Bytes)
      → incoming ≡ w ++ s.incoming
      → P a w
      → Takes P incoming (got a s)
  refuses : Takes P incoming refused
  waits : Takes P incoming waiting

module _ {A : Type 0} where
  pub Takes-behind :
      {P : A → Bytes → Type 0} {incoming rest : Bytes} {r : Reception A} (w : Bytes)
      → incoming ≡ w ++ rest
      → Takes (λ a v. P a (w ++ v)) rest r
      → Takes P incoming r
  Takes-behind w e (takes {s} v e' h) =
      takes (w ++ v) (e ∙ ap (λ x. w ++ x) e' ∙ sym (append_assoc w v s.incoming)) h
  Takes-behind w e refuses = refuses
  Takes-behind w e waits = waits

  pub Takes-continue :
      {B : Type 0} {P : A → Bytes → Type 0} {Q : B → Bytes → Type 0} {incoming : Bytes}
      {r : Reception A} {f : A → Receiver B}
      → Takes P incoming r
      → ((a : A) (s : Socket) (w : Bytes)
          → incoming ≡ w ++ s.incoming
          → P a w
          → Takes Q incoming (f a s))
      → Takes Q incoming (continue_with r f)
  Takes-continue (takes {a} {s} w e h) k = k a s w e h
  Takes-continue refuses k = refuses
  Takes-continue waits k = waits

  Takes-if :
      {P : A → Bytes → Type 0} {incoming : Bytes} (c : Bool) {x y : Reception A}
      → (c ≡ true → Takes P incoming x)
      → (c ≡ false → Takes P incoming y)
      → Takes P incoming (if c then x else y)
  Takes-if true f g = f refl
  Takes-if false f g = g refl

  pub Takes-map :
      {P Q : A → Bytes → Type 0} {incoming : Bytes} {r : Reception A}
      → ((a : A) (w : Bytes) → P a w → Q a w)
      → Takes P incoming r
      → Takes Q incoming r
  Takes-map k (takes w e h) = takes w e (k _ w h)
  Takes-map k refuses = refuses
  Takes-map k waits = waits

  -- The same for a choice between two receivers, run on a socket.
  pub Takes-choice :
      {P : A → Bytes → Type 0} {incoming : Bytes} (c : Bool) (x y : Receiver A) {s : Socket}
      → (c ≡ true → Takes P incoming (x s))
      → (c ≡ false → Takes P incoming (y s))
      → Takes P incoming ((if c then x else y) s)
  Takes-choice true x y f g = f refl
  Takes-choice false x y f g = g refl

taken_prefix :
    (n k : ℕ) (xs : Bytes) → xs ≡ take n (take k xs) ++ drop (length (take n (take k xs))) xs
taken_prefix zero k xs = refl
taken_prefix (suc n) zero xs = refl
taken_prefix (suc n) (suc k) [] = refl
taken_prefix (suc n) (suc k) (x ∷ xs) = ap (λ r. x ∷ r) (taken_prefix n k xs)

-- So many bytes, and no others.
abbrev Exactly : ℕ → Bytes → Bytes → Type 0
Exactly n b w = (w ≡ b) × (length b ≡ n)

prepend-Takes :
    (n : ℕ) (d incoming rest : Bytes) (r : Reception Bytes)
    → incoming ≡ d ++ rest
    → length d ≤ n
    → Takes (Exactly (n - length d)) rest r
    → Takes (Exactly n) incoming (prepend d r)
prepend-Takes n d incoming rest _ e h (takes {a} {s} w e' (same, sized)) =
    takes (d ++ w) (e ∙ ap (λ x. d ++ x) e' ∙ sym (append_assoc d w s.incoming))
      (ap (λ x. d ++ x) same, length-append d a ∙ omega (arith, sized, h))
prepend-Takes n d incoming rest _ e h refuses = refuses
prepend-Takes n d incoming rest _ e h waits = waits

none_needed :
    (n : ℕ) (incoming : Bytes) (as' : List RecvAnswer)
    → (n == 0) ≡ true
    → Takes (Exactly n) incoming (got [] (record { incoming = incoming; answers = as' }))
none_needed n incoming as' e = takes [] refl (refl, sym ((==_iff n 0).0 e))

pub recv_loop-Takes :
    (n : ℕ) (incoming : Bytes) (as' : List RecvAnswer)
    → Takes (Exactly n) incoming (recv_loop n incoming as')
unfolding recv_loop
recv_loop-Takes n incoming [] = Takes-if (n == 0) (none_needed n incoming []) (λ _. waits)
recv_loop-Takes n incoming (received k ∷ rest) =
    let d = take n (take k incoming) in
    Takes-if (n == 0) (none_needed n incoming (received k ∷ rest)) (λ _.
      Takes-if (length d == 0) (λ _. refuses)
        (λ _.
          prepend-Takes n d incoming (drop (length d) incoming) _ (taken_prefix n k incoming)
            (omega (arith, length-take n (take k incoming)))
            (recv_loop-Takes (n - length d) (drop (length d) incoming) rest)))
recv_loop-Takes n incoming (closed ∷ rest) =
    Takes-if (n == 0) (none_needed n incoming (closed ∷ rest)) (λ _. refuses)
recv_loop-Takes n incoming (interrupted ∷ rest) =
    Takes-if (n == 0) (none_needed n incoming (interrupted ∷ rest))
      (λ _. recv_loop-Takes n incoming rest)
recv_loop-Takes n incoming (broken ∷ rest) =
    Takes-if (n == 0) (none_needed n incoming (broken ∷ rest)) (λ _. refuses)

pub Takes-got :
    {A : Type 0} {P : A → Bytes → Type 0} {incoming : Bytes} {r : Reception A} {a : A} {s : Socket}
    → Takes P incoming r
    → r ≡ got a s
    → (w : Bytes) × (incoming ≡ w ++ s.incoming) × P a w
Takes-got {P} {incoming} {s} (takes {a = b} {s = s'} w e h) same =
    let same_socket : s' ≡ s = cc same in
    (w, e ∙ ap (λ (x : Socket). w ++ x.incoming) same_socket, subst (λ x. P x w) (cc same) h)
Takes-got refuses same = absurd (cc same)
Takes-got waits same = absurd (cc same)
