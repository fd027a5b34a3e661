-- ===== src/Routing/Bus/Soundness.antt =====
-- Registration, delivery and waiting keep the bus sound.
use oacp.Prelude.{
  ℕ, String, ◌≡◌, refl, Bool, true, false, Option, none, some, List, [], ◌∷◌, arith, ◌⊎◌, inl, inr,
  All, All-set, All-get, All-append, get_elem?, Option-cases, Bool-cases, or_else,
}
use oacp.Js.Map
use oacp.Protocol.Messages.{OacpMessage}
use oacp.Routing.Types.{AgentMailbox, AgentRegistration}
use oacp.Routing.Bus.Defs.{
  Bus, BusOptions, create, RegisterOptions, allocate, put_registration, unindex, with_mailbox,
  merge_registration, register, unregister,
}
use oacp.Routing.Bus.Delivery.{post_to, post}
use oacp.Routing.Bus.Waiting.{
  take_or_wait, mailbox_of, wait_for_message, expire, remove_waiter, timer_of,
}
use oacp.Routing.Bus.Calls.{after_wait}
use oacp.Routing.Bus.Registration.{
  IsIndexed, register-IsIndexed, unregister-IsIndexed, create-IsIndexed,
}

-- No mailbox holds a message while somebody waits for one.
abbrev pub IsExclusive : AgentMailbox → Type 0
IsExclusive box = (box.queue ≡ []) ⊎ (box.waiters ≡ [])

pub record IsSound (b : Bus) : Type 0 where
  pub indexed : IsIndexed b
  pub exclusive : All IsExclusive b.mailboxes

pub create-IsSound : (o : BusOptions) → IsSound (create o)
unfolding create
create-IsSound o = record { indexed = create-IsIndexed o; exclusive = tt }

with_mailbox-IsExclusive :
    (b : Bus) (uri : String) (handler : Option ℕ) (cs : List String) (box : Option ℕ) (wants : Bool)
    → All IsExclusive b.mailboxes
    → All IsExclusive (with_mailbox b uri handler cs box wants).mailboxes
unfolding with_mailbox allocate put_registration
with_mailbox-IsExclusive b uri handler cs (some box) wants v = v
with_mailbox-IsExclusive b uri handler cs none true v =
    All-append IsExclusive b.mailboxes _ v (inl refl, tt)
with_mailbox-IsExclusive b uri handler cs none false v = v

register-IsExclusive :
    (b : Bus) (uri : String) (handler : Option ℕ) (o : RegisterOptions)
    → All IsExclusive b.mailboxes
    → All IsExclusive (register b uri handler o).mailboxes
unfolding register merge_registration unindex
register-IsExclusive b uri handler o v = elim (Option-cases (Map.get b.agents uri)) [
  | inl absent ↦ rw (absent, register) (with_mailbox-IsExclusive b uri _ _ _ _ v)
  | inr (r, e) ↦ elim (Bool-cases (or_else o.replace false)) [
    | inl replaces ↦
        rw (e, replaces, register) (with_mailbox-IsExclusive (unindex b uri r) uri _ _ _ _ v)
    | inr merges ↦
        rw (e, merges, register) (with_mailbox-IsExclusive (unindex b uri r) uri _ _ _ _ v)
  ]
]

pub register-IsSound :
    (b : Bus) (uri : String) (handler : Option ℕ) (o : RegisterOptions)
    → IsSound b
    → IsSound (register b uri handler o)
register-IsSound b uri handler o v = record {
  indexed = register-IsIndexed b uri handler o v.indexed;
  exclusive = register-IsExclusive b uri handler o v.exclusive;
}

unregister-mailboxes : (b : Bus) (uri : String) → (unregister b uri).0.mailboxes ≡ b.mailboxes
unfolding unregister unindex
unregister-mailboxes b uri = ground arith

pub unregister-IsSound : (b : Bus) (uri : String) → IsSound b → IsSound (unregister b uri).0
unregister-IsSound b uri v = record {
  indexed = unregister-IsIndexed b uri v.indexed;
  exclusive = rw (unregister-mailboxes b uri) v.exclusive;
}

-- A bus with the same registrations and another sound heap.
pub with_mailboxes-IsSound :
    (b next : Bus)
    → next.agents ≡ b.agents
    → next.capability_index ≡ b.capability_index
    → All IsExclusive next.mailboxes
    → IsSound b
    → IsSound next
with_mailboxes-IsSound b next a ix e v = record {
  indexed = record {
    exact = λ c uri. rw (a, ix) (v.indexed.exact c uri);
    no_empty = rw ix v.indexed.no_empty;
  };
  exclusive = e;
}

post_to-IsSound :
    (b : Bus) (i : ℕ) (box : AgentMailbox) (ws : List ℕ) (m : OacpMessage)
    → box.waiters ≡ ws
    → IsExclusive box
    → IsSound b
    → IsSound (post_to b i box ws m)
unfolding post_to
post_to-IsSound b i box [] m e x v =
    with_mailboxes-IsSound b _ refl refl
      (All-set IsExclusive b.mailboxes i _ (inr refl) v.exclusive) v
post_to-IsSound b i box (w ∷ ws) m e x v =
    with_mailboxes-IsSound b _ refl refl
      (All-set IsExclusive b.mailboxes i _ (inl (ground arith)) v.exclusive) v

pub post-IsSound : (b : Bus) (box : Option ℕ) (m : OacpMessage) → IsSound b → IsSound (post b box m)
unfolding post
post-IsSound b none m v = v
post-IsSound b (some i) m v = elim (Option-cases (get_elem? b.mailboxes i)) [
  | inl dangling ↦ rw (dangling, post) v
  | inr (box, e) ↦
      rw (e, post)
        (post_to-IsSound b i box box.waiters m refl
          (All-get IsExclusive b.mailboxes i box e v.exclusive) v)
]

take_or_wait-IsSound :
    (b : Bus) (i : ℕ) (box : AgentMailbox) (queue : List OacpMessage)
    → box.queue ≡ queue
    → IsExclusive box
    → IsSound b
    → IsSound (take_or_wait b i box queue).1
unfolding take_or_wait
take_or_wait-IsSound b i box [] e x v =
    with_mailboxes-IsSound b _ refl refl (All-set IsExclusive b.mailboxes i _ (inl e) v.exclusive) v
take_or_wait-IsSound b i box (m ∷ queue) e x v =
    with_mailboxes-IsSound b _ refl refl
      (All-set IsExclusive b.mailboxes i _ (inr (ground arith)) v.exclusive) v

after_mailbox_of-IsSound :
    (b : Bus) (uri : String) (r : AgentRegistration) (box : Option ℕ)
    → IsSound b
    → IsSound (after_wait b (mailbox_of b uri r box))
unfolding after_wait mailbox_of
after_mailbox_of-IsSound b uri r none v = v
after_mailbox_of-IsSound b uri r (some i) v = elim (Option-cases (get_elem? b.mailboxes i)) [
  | inl dangling ↦ rw (dangling, mailbox_of) v
  | inr (box, e) ↦
      rw (e, mailbox_of)
        (take_or_wait-IsSound b i box box.queue refl
          (All-get IsExclusive b.mailboxes i box e v.exclusive) v)
]

pub after_wait-IsSound :
    (b : Bus) (uri : String) → IsSound b → IsSound (after_wait b (wait_for_message b uri))
unfolding wait_for_message after_wait
after_wait-IsSound b uri v = elim (Option-cases (Map.get b.agents uri)) [
  | inl absent ↦ rw (absent, wait_for_message) v
  | inr (r, e) ↦ rw (e, wait_for_message) (after_mailbox_of-IsSound b uri r r.mailbox v)
]

remove_waiter-IsExclusive :
    (w : ℕ) (box : AgentMailbox) → IsExclusive box → IsExclusive (remove_waiter w box)
unfolding remove_waiter
remove_waiter-IsExclusive w box (inl e) = inl e
remove_waiter-IsExclusive w box (inr e) = inr (rw e)

pub expire-IsSound : (w : ℕ) (b : Bus) → IsSound b → IsSound (expire w b)
unfolding expire
expire-IsSound w b v = elim (Option-cases (timer_of w b.timers)) [
  | inl off ↦ rw (off, expire) v
  | inr (i, t) ↦ elim (Option-cases (get_elem? b.mailboxes i)) [
    | inl dangling ↦ rw (t, dangling, expire) v
    | inr (box, e) ↦
        rw (t, e, expire)
          (with_mailboxes-IsSound b _ refl refl
            (All-set IsExclusive b.mailboxes i _
              (remove_waiter-IsExclusive w box
                (All-get IsExclusive b.mailboxes i box e v.exclusive))
              v.exclusive)
            v)
  ]
]
