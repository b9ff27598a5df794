-- ===== src/Golf/InMemoryGameStore/Contract/Refinement.antt =====
-- Whatever is called, in_memory_game_store.cc answers as its contract says.
use moon_base.Base.{◌≡◌, refl, ap, subst, List, [], ◌∷◌}
use moon_base.Absl.{StatusOr, ok, err, fault}
use moon_base.Golf.GameStore.{Action, ◌>>=◌, pure}
use moon_base.Golf.InMemoryGameStore.{InMemoryGameStore, empty_store, in_memory_store}
use moon_base.Golf.InMemoryGameStore.Contract.{
  Call, adds_user, asks_for_user, removes_user, reads, reads_by_user, opens, updates, Answer, done,
  says, gives, Contents, nothing, reply, replies, specified,
}
use moon_base.Golf.InMemoryGameStore.Contract.Holds.{Holds, empty_store-Holds}
use moon_base.Golf.InMemoryGameStore.Contract.Calls.{
  Keeps, adds_user-Keeps, removes_user-Keeps, asks_for_user-Keeps, reads-Keeps, reads_by_user-Keeps,
}
use moon_base.Golf.InMemoryGameStore.Contract.Writes.{opens-Keeps, updates-Keeps}

-- A reply, of the method's own result.
answered-Keeps :
    {A : Type 0} (f : A → Answer) (m : Action InMemoryGameStore A) (s : InMemoryGameStore)
    (y : StatusOr Answer × Contents)
    → Keeps f (m s) y
    → Keeps (λ a. a) ((m >>= λ a. pure (ok (f a))) s) y
answered-Keeps {A} f m s y k = go (m s) k
  where
    go :
        (x : StatusOr A × InMemoryGameStore)
        → Keeps f x y
        → Keeps (λ a. a) (((λ _. x) >>= λ a. pure (ok (f a))) s) y
    go (ok a, t) i = record { answer = i.answer; state = i.state }
    go (err e, t) i = record { answer = i.answer; state = i.state }
    go (fault b, t) i = record { answer = i.answer; state = i.state }

reply-Keeps :
    (call : Call) (s : InMemoryGameStore) (c : Contents)
    → Holds s c
    → Keeps (λ a. a) (reply in_memory_store call s) (specified call c)
reply-Keeps (adds_user u) s c h =
    answered-Keeps (λ _. done) (in_memory_store.add_user u) s _ (adds_user-Keeps u s c h)
reply-Keeps (asks_for_user u) s c h =
    answered-Keeps says (in_memory_store.user_exists u) s _ (asks_for_user-Keeps u s c h)
reply-Keeps (removes_user u) s c h =
    answered-Keeps (λ _. done) (in_memory_store.remove_user u) s _ (removes_user-Keeps u s c h)
reply-Keeps (reads id) s c h =
    answered-Keeps gives (in_memory_store.read_game id) s _ (reads-Keeps id s c h)
reply-Keeps (reads_by_user u) s c h =
    answered-Keeps gives (in_memory_store.read_game_by_user_id u) s _ (reads_by_user-Keeps u s c h)
reply-Keeps (opens g) s c h =
    answered-Keeps gives (in_memory_store.new_game g) s _ (opens-Keeps g s c h)
reply-Keeps (updates g) s c h =
    answered-Keeps gives (in_memory_store.update_game g) s _ (updates-Keeps g s c h)

-- The answer of one call, and those that follow.
abbrev follow :
    {S : Type 0}
    → (Call → Action S Answer)
    → List Call
    → StatusOr Answer × S
    → List (StatusOr Answer)
follow step cs (r, t) =
    r ∷ elim r [ ok a ↦ replies step cs t | err e ↦ replies step cs t | fault b ↦ [] ]

follow-Keeps :
    (cs : List Call) (x : StatusOr Answer × InMemoryGameStore) (y : StatusOr Answer × Contents)
    → ((s : InMemoryGameStore) (c : Contents)
        → Holds s c
        → replies (reply in_memory_store) cs s ≡ replies specified cs c)
    → Keeps (λ a. a) x y
    → follow (reply in_memory_store) cs x ≡ follow specified cs y
follow-Keeps cs (ok a, s) (q, c) later k =
    subst (λ r. follow (reply in_memory_store) cs (ok a, s) ≡ follow specified cs (r, c)) k.answer
      (ap (◌∷◌ (ok a)) (later s c k.state))
follow-Keeps cs (err e, s) (q, c) later k =
    subst (λ r. follow (reply in_memory_store) cs (err e, s) ≡ follow specified cs (r, c)) k.answer
      (ap (◌∷◌ (err e)) (later s c k.state))
follow-Keeps cs (fault b, s) (q, c) later k =
    subst (λ r. follow (reply in_memory_store) cs (fault b, s) ≡ follow specified cs (r, c))
      k.answer refl

replies-Holds :
    (cs : List Call) (s : InMemoryGameStore) (c : Contents)
    → Holds s c
    → replies (reply in_memory_store) cs s ≡ replies specified cs c
unfolding replies
replies-Holds [] s c h = refl
replies-Holds (call ∷ cs) s c h =
    follow-Keeps cs (reply in_memory_store call s) (specified call c) (replies-Holds cs)
      (reply-Keeps call s c h)

-- From the empty store, any calls of the methods that add, look for and remove a user, read a game by
-- its id and by a user, open a game and update one, in any order, answer what the contract over
-- functions answers to the same calls, each of them, errors and a fault that ends them included.
pub replies-empty_store :
    (cs : List Call) → replies (reply in_memory_store) cs empty_store ≡ replies specified cs nothing
replies-empty_store cs = replies-Holds cs empty_store nothing empty_store-Holds
