-- ===== src/Conc/Entered.antt =====
-- kern/conc/sleeplock.c: a process that enters the lock or sleeps for it, and one that leaves it, keep the invariant.
use fos_educational_os_proje.Base.{
  ℕ, ◌≡◌, ◌+◌, ◌≤◌, ◌<◌, count, count_all, ◌⊎◌, ◌&&◌, refl, sym, ◌∙◌, subst, ◌≢◌, Bool, true, false,
  [], ◌∷◌, ◌==◌, ==-ne, ==_iff, false≢true, if◌then◌else◌, Yields, yields, has, update, update_self,
  update-ne, Bool-cases, inl, inr, ap, arith,
}
use fos_educational_os_proje.Base.Monad.{pure}
use fos_educational_os_proje.Sched.{Ptr, null, cli}
use fos_educational_os_proje.Sched.Picks.{NoNull}
use fos_educational_os_proje.Conc.{Chan, acquire_guard, release_guard, set_channel, back_from_sleep}
use fos_educational_os_proje.Conc.Sleeplock.{
  Sleeplock, claim_or_sleep, acquire_resumed, release_sleeplock,
}
use fos_educational_os_proje.Conc.Counted.{acquired, go_to_sleep_lem}
use fos_educational_os_proje.Conc.Wakeup.{wakeup_all_lem, release_qlock_lem, AllFit}
use fos_educational_os_proje.Conc.Held.{bind_chan}
use fos_educational_os_proje.Conc.Roused.{counted, roused-inside, roused-asleep}
use fos_educational_os_proje.Conc.Interleaved.{
  Place, outside, asleep, inside, is_inside, is_asleep, in_ready_queue, roused, System, moved,
  left_by, after, Inv,
}

-- The channel when a resumed process has its guard again.
abbrev back : Ptr → Chan → Chan
back p c = record c {
  guard = true;
  sys =
      set_channel p null
        (cli (record c.sys { locked = false; ncli = 0; interrupts = (0 == 0) && c.sys.intena }));
}

-- A resumed process does what a first attempt does.
pub resumed-Acquired :
    (p : Ptr) (was : Bool) (owner : ℕ) (c : Chan)
    → c.sys.proc ≢ null
    → c.guard ≡ false
    → c.sys.locked ≡ true
    → c.sys.ncli ≡ 1
    → c.sys.interrupts ≡ false
    → Yields
        (λ r.
          (r.0 ≡ was)
          × (r.1.locked ≡ true)
          × (r.1.c.queue ≡ (if was then c.sys.proc ∷ c.queue else c.queue))
          × (r.1.c.guard ≡ false))
        (acquire_resumed p (record { locked = was; pid = owner; c = c }))
unfolding acquire_resumed back_from_sleep acquire_guard claim_or_sleep release_guard
resumed-Acquired p true owner c ne g l one off = rw (release_qlock_lem c.sys 0 l one off) (
    rw g (
      bind_chan (λ _. pure true) (record { locked = true; pid = owner; c = d })
        (go_to_sleep_lem d ne refl refl refl) λ u d p. yields _ (refl, refl, p.0, p.1)))
  where
    d : Chan
    d = back p c
resumed-Acquired p false owner c ne g l one off =
    rw (release_qlock_lem c.sys 0 l one off)
      (rw g (rw (==-ne c.sys.proc null ne) (yields _ (refl, refl, refl, refl))))

pub released :
    (k : Sleeplock)
    → k.c.guard ≡ false
    → k.c.chan ≢ null
    → k.c.sys.locked ≡ false
    → NoNull k.c.queue
    → AllFit k.c.sys k.c.queue
    → Yields
        (λ r.
          (r.1.locked ≡ false)
          × (r.1.c.queue ≡ [])
          × (r.1.c.guard ≡ false)
          × ((x : Ptr)
              → count_all x r.1.c.sys.env_ready_queues
                ≡ count x k.c.queue + count_all x k.c.sys.env_ready_queues))
        (release_sleeplock k)
unfolding release_sleeplock acquire_guard release_guard
released k g ch free real fits = rw g (
    bind_chan _ (record k { locked = false; pid = 0; c = acquired k.c })
      (wakeup_all_lem (acquired k.c) ch free real fits)
      λ u d (empty, guard, unlocked, woke, deep).
        let (depth, off) = deep k.c.sys.ncli refl in
        rw guard (rw depth (rw off (yields _ (refl, empty, refl, woke)))))

inside≢asleep : inside ≢ asleep
inside≢asleep e = false≢true (ap is_asleep e)

pub place_at : (f : Ptr → Place) (p q : Ptr) (a : Place) → q ≡ p → update f p a q ≡ a
place_at f p q a e = subst (λ k. update f p a k ≡ a) (sym e) (update_self f p a)

-- An attempt at the lock, the first or a later one.
pub entered-Inv :
    (was : Bool) (s : System) (p : Ptr) (slept : Bool) (k : Sleeplock)
    → s.lock.locked ≡ was
    → Inv s
    → p ≢ null
    → is_inside (s.place p) ≡ false
    → slept ≡ was
    → k.locked ≡ true
    → k.c.queue ≡ (if was then p ∷ s.lock.c.queue else s.lock.c.queue)
    → k.c.guard ≡ false
    → Inv (moved p (after slept) k s)
entered-Inv true s p slept k was i ne out sl lk q g = record {
  guard = g;
  chan = i.chan;
  real = subst NoNull (sym q) (ne, i.real);
  sleepers = λ x m. elim (Bool-cases (x == p)) [
    | inl t ↦ place_at s.place p x (after slept) ((==_iff x p).0 t) ∙ ap after sl
    | inr f ↦
        update-ne s.place p (after slept) x (other x p f)
        ∙ i.sleepers x (rest x f (subst (λ j. has x j ≡ true) q m))
  ];
  queued = λ x m. subst (λ j. has x j ≡ true) (sym q) (joined x m (Bool-cases (x == p)));
  free = λ f. absurd (false≢true (sym f ∙ lk));
  held = λ _.
      let (o, owns, only) = i.held was in
      (
        o,
        update-ne s.place p (after slept) o (apart o owns) ∙ owns,
        λ x m. elim (Bool-cases (x == p)) [
          | inl t ↦ absurd (
              false≢true (
                ap is_inside
                  (sym (place_at s.place p x (after slept) ((==_iff x p).0 t) ∙ ap after sl))
                ∙ m))
          | inr f ↦
              only x (sym (ap is_inside (update-ne s.place p (after slept) x (other x p f))) ∙ m)
        ],
      );
}
  where
    other : (x y : Ptr) → (x == y) ≡ false → x ≢ y
    other x y f e = false≢true (sym f ∙ (==_iff x y).1 e)

    joined :
        (x : Ptr)
        → update s.place p (after slept) x ≡ asleep
        → ((x == p) ≡ true) ⊎ ((x == p) ≡ false)
        → has x (p ∷ s.lock.c.queue) ≡ true
    joined x m (inl t) = rw t refl
    joined x m (inr f) =
        rw (i.queued x (sym (update-ne s.place p (after slept) x (other x p f)) ∙ m)) (ground arith)

    rest :
        (x : Ptr)
        → (x == p) ≡ false
        → has x (p ∷ s.lock.c.queue) ≡ true
        → has x s.lock.c.queue ≡ true
    rest x f m = ground arith

    apart : (o : Ptr) → s.place o ≡ inside → o ≢ p
    apart o here e =
        false≢true (sym out ∙ subst (λ j. is_inside (s.place j) ≡ true) e (ap is_inside here))
entered-Inv false s p slept k was i ne out sl lk q g = record {
  guard = g;
  chan = i.chan;
  real = subst NoNull (sym (q ∙ (i.free was).0)) tt;
  sleepers = λ x m. absurd (false≢true (subst (λ j. has x j ≡ true) (q ∙ (i.free was).0) m));
  queued = λ x m. absurd (awake x m (Bool-cases (x == p)));
  free = λ f. absurd (false≢true (sym f ∙ lk));
  held = λ _. (
    p,
    update_self s.place p (after slept) ∙ ap after sl,
    λ x m. elim (Bool-cases (x == p)) [
      | inl t ↦ (==_iff x p).0 t
      | inr f ↦
          let ne' : x ≢ p = λ e. false≢true (sym f ∙ (==_iff x p).1 e) in
          absurd (
            false≢true (
              sym ((i.free was).1 x)
              ∙ sym (ap is_inside (update-ne s.place p (after slept) x ne'))
              ∙ m))
    ],
  );
}
  where
    awake :
        (x : Ptr)
        → update s.place p (after slept) x ≡ asleep
        → ((x == p) ≡ true) ⊎ ((x == p) ≡ false)
        → ⊥
    awake x m (inl t) =
        inside≢asleep
          (sym (place_at s.place p x (after slept) ((==_iff x p).0 t) ∙ ap after sl) ∙ m)
    awake x m (inr f) =
        let ne' : x ≢ p = λ e. false≢true (sym f ∙ (==_iff x p).1 e) in
        false≢true (
          subst (λ j. has x j ≡ true) (i.free was).0
            (i.queued x (sym (update-ne s.place p (after slept) x ne') ∙ m)))

pub left-Inv :
    (s : System) (p : Ptr) (k : Sleeplock)
    → Inv s
    → s.place p ≡ inside
    → k.locked ≡ false
    → k.c.queue ≡ []
    → k.c.guard ≡ false
    → ((x : Ptr) → count x s.lock.c.queue ≤ count_all x k.c.sys.env_ready_queues)
    → Inv (left_by p k s)
left-Inv s p k i at lk q g woke = record {
  guard = g;
  chan = i.chan;
  real = subst NoNull (sym q) tt;
  sleepers = λ x m. absurd (false≢true (subst (λ j. has x j ≡ true) q m));
  queued = λ x m. absurd (missed x m (Bool-cases (x == p)));
  free = λ _. (q, λ x. nobody x);
  held = λ l. absurd (false≢true (sym lk ∙ l));
}
  where
    was_held : s.lock.locked ≡ true
    was_held = elim (Bool-cases s.lock.locked) [
      | inl t ↦ t
      | inr f ↦ absurd (false≢true (sym ((i.free f).1 p) ∙ ap is_inside at))
    ]

    none_left :
        (x : Ptr) → 0 < count_all x k.c.sys.env_ready_queues → in_ready_queue x k.c.sys ≡ false → ⊥
    none_left x lt e = ground arith

    missed :
        (x : Ptr)
        → update (roused k.c.sys s.place) p outside x ≡ asleep
        → ((x == p) ≡ true) ⊎ ((x == p) ≡ false)
        → ⊥
    missed x m (inl t) =
        false≢true (
          ap is_asleep (sym (place_at (roused k.c.sys s.place) p x outside ((==_iff x p).0 t)) ∙ m))
    missed x m (inr f) =
        let ne : x ≢ p = λ e. false≢true (sym f ∙ (==_iff x p).1 e) in
        let (was, unready) =
          roused-asleep k.c.sys s.place x
            (sym (update-ne (roused k.c.sys s.place) p outside x ne) ∙ m) in
        let here = counted x s.lock.c.queue (i.queued x was) in
        none_left x (omega (arith, here, woke x)) unready

    nobody : (x : Ptr) → is_inside (update (roused k.c.sys s.place) p outside x) ≡ false
    nobody x = elim (Bool-cases (x == p)) [
      | inl t ↦ ap is_inside (place_at (roused k.c.sys s.place) p x outside ((==_iff x p).0 t))
      | inr f ↦
          let ne : x ≢ p = λ e. false≢true (sym f ∙ (==_iff x p).1 e) in
          ap is_inside (update-ne (roused k.c.sys s.place) p outside x ne)
          ∙ roused-inside k.c.sys s.place x
          ∙ outsider x ne
    ]
      where
        outsider : (x : Ptr) → x ≢ p → is_inside (s.place x) ≡ false
        outsider x ne = elim (Bool-cases (is_inside (s.place x))) [
          | inl t ↦
              let (o, owns, only) = i.held was_held in
              absurd (ne (only x t ∙ sym (only p (ap is_inside at))))
          | inr f ↦ f
        ]
