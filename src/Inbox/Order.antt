-- ===== src/Inbox/Order.antt =====
-- The order in which actor/inbox.go hands messages over.
use mathlib.Core.List.{append_assoc, Perm, perm_middle, perm_append_singleton}
use mathlib.Core.List.Perm
use hollywood.Base.{
  ℕ, zero, suc, ◌≡◌, refl, sym, ap, subst, ◌∙◌, List, [], ◌∷◌, ◌++◌, arith, take, drop,
}
use hollywood.Inbox.{
  Inbox, System, Reach, fresh, called, moved, Pc, popping, Call, send, send_priority, start, stop,
  clear, advance, enter, schedule, pop_batch, message_batch_size,
}

-- The halves of a list are the list.
take-append-drop {ℓ} : {A : Type ℓ} (n : ℕ) (l : List A) → take n l ++ drop n l ≡ l
take-append-drop zero l = refl
take-append-drop (suc n) [] = refl
take-append-drop (suc n) (a ∷ l) = ap (◌∷◌ a) (take-append-drop n l)

module _ {M : Type 0} where
  -- No priority message, and no Clear.
  abbrev pub InOrder : System M → Call M → Type 0
  InOrder s (send_priority m) = ⊥
  InOrder s clear = ⊥
  InOrder s _ = Unit

  abbrev Ordered : Inbox M → Type 0
  Ordered b = b.sent ≡ b.taken ++ b.rb

  pop_batch-taken :
      (q : List M) (b : Inbox M)
      → let b' = (pop_batch (record b { rb = q })).0 in
        (b'.sent ≡ b.sent) × (b'.taken ++ b'.rb ≡ b.taken ++ q)
  unfolding pop_batch
  pop_batch-taken [] b = (refl, refl)
  pop_batch-taken (m ∷ q) b = (
    refl,
    append_assoc b.taken (take message_batch_size (m ∷ q)) (drop message_batch_size (m ∷ q))
        ∙ ap (◌++◌ (b.taken)) (take-append-drop message_batch_size (m ∷ q)),
  )

  advance-Ordered : (b : Inbox M) (pc : Pc M) → Ordered b → Ordered (advance b pc).0
  unfolding advance schedule
  advance-Ordered b popping h = let same = pop_batch-taken b.rb b in same.0 ∙ h ∙ sym same.1
  advance-Ordered b pc h = ground arith

  enter-Ordered :
      (b : Inbox M) (c : Call M) (ts : List (Pc M))
      → InOrder (record { inbox = b; threads = ts }) c
      → Ordered b
      → Ordered (enter b c).0
  unfolding enter
  enter-Ordered b (send m) ts a h =
      ap (λ (l : List M). l ++ m ∷ []) h ∙ append_assoc b.taken b.rb (m ∷ [])
  enter-Ordered b (send_priority m) ts a h = absurd a
  enter-Ordered b (start p) ts a h = ground arith
  enter-Ordered b stop ts a h = h
  enter-Ordered b clear ts a h = absurd a

  -- Without priority messages and Clear, in every state that is reached: what was sent is what the
  -- batches took, followed by what is still in the queue, in the order of the sends.
  pub sent-InOrder : (s : System M) → Reach InOrder s → s.inbox.sent ≡ s.inbox.taken ++ s.inbox.rb
  sent-InOrder _ fresh = refl
  sent-InOrder _ (called b c ts a r) = enter-Ordered b c ts a (sent-InOrder _ r)
  sent-InOrder _ (moved b xs pc ys r) = advance-Ordered b pc (sent-InOrder _ r)

  -- No Clear.
  abbrev pub NoClear : System M → Call M → Type 0
  NoClear s clear = ⊥
  NoClear s _ = Unit

  abbrev Accounted : Inbox M → Type 0
  Accounted b = Perm b.sent (b.taken ++ b.rb)

  advance-Accounted : (b : Inbox M) (pc : Pc M) → Accounted b → Accounted (advance b pc).0
  unfolding advance schedule
  advance-Accounted b popping h =
      let same = pop_batch-taken b.rb b in
      subst (Perm (pop_batch b).0.sent) (sym same.1)
        (subst (λ (l : List M). Perm l (b.taken ++ b.rb)) (sym same.0) h)
  advance-Accounted b pc h = ground arith

  enter-Accounted :
      (b : Inbox M) (c : Call M) (ts : List (Pc M))
      → NoClear (record { inbox = b; threads = ts }) c
      → Accounted b
      → Accounted (enter b c).0
  unfolding enter
  enter-Accounted b (send m) ts a h =
      subst (Perm (b.sent ++ m ∷ [])) (append_assoc b.taken b.rb (m ∷ [])) (
        Perm.trans (perm_append_singleton m b.sent)
          (Perm.trans (Perm.cons m h) (Perm.symm (perm_append_singleton m (b.taken ++ b.rb)))))
  enter-Accounted b (send_priority m) ts a h =
      Perm.trans (perm_append_singleton m b.sent)
        (Perm.trans (Perm.cons m h) (Perm.symm (perm_middle b.taken b.rb)))
  enter-Accounted b (start p) ts a h = ground arith
  enter-Accounted b stop ts a h = h
  enter-Accounted b clear ts a h = absurd a

  -- Without Clear, in every state that is reached, with priority messages too: the messages sent are
  -- those that the batches took together with those in the queue, each as often as it was sent.
  pub each_sent_once :
      (s : System M) → Reach NoClear s → Perm s.inbox.sent (s.inbox.taken ++ s.inbox.rb)
  each_sent_once _ fresh = Perm.refl []
  each_sent_once _ (called b c ts a r) = enter-Accounted b c ts a (each_sent_once _ r)
  each_sent_once _ (moved b xs pc ys r) = advance-Accounted b pc (each_sent_once _ r)
