-- ===== src/Session/Upstream/Agrees.antt =====
-- What the daemon believes of its subscription at the far daemon is so.
use devvm.Prelude.{
  Bool, true, false, not, ◌&&◌, ◌≡◌, refl, sym, subst, ◌∙◌, List, [], ◌∷◌, Option, none, arith,
  if_rule,
}
use devvm.Session.Upstream.{
  Link, no_link, plain_link, hooked, Inflight, idle, pending_call, returned, Upstream, Call,
  call_answered, call_refused, call_slow, UpErr, make_call, call_at, call_upstream, same_bool,
  sync_at, sync_upstream, resubscribe_at, resubscribe, landed, UpEvent, wants, syncs, lands,
  relinks, unlinks, up_step, up_run, up_start,
}

abbrev pub is_out : Inflight → Bool
is_out idle = false
is_out (pending_call b) = true
is_out returned = false

-- Unless the state is marked as unknown, it is the far daemon's, and no call is still out.
pub record Known (u : Upstream) : Type 0 where
  pub agrees : u.dirty ≡ false → u.far ≡ u.up_on
  pub none_out : u.dirty ≡ false → is_out u.inflight ≡ false

make_call-Known : (on : Bool) (c : Call) (u : Upstream) → Known u → Known (make_call on c u).0
unfolding make_call
make_call-Known on call_answered u k = record { agrees = λ h. refl; none_out = λ h. refl }
make_call-Known on call_refused u k = record { agrees = k.agrees; none_out = λ h. refl }
make_call-Known on call_slow u k = record { agrees = λ h. absurd (cc); none_out = λ h. absurd (cc) }

call_at-Known :
    (i : Inflight) (on : Bool) (c : Call) (u : Upstream) → Known u → Known (call_at i on c u).0
unfolding call_at
call_at-Known (pending_call b) on c u k = record {
  agrees = λ h. absurd (cc);
  none_out = λ h. absurd (cc);
}
call_at-Known idle on c u k = make_call-Known on c u k
call_at-Known returned on c u k = make_call-Known on c u k

call_upstream-Known :
    (on : Bool) (c : Call) (u : Upstream) → Known u → Known (call_upstream on c u).0
unfolding call_upstream
call_upstream-Known on c u k = call_at-Known u.inflight on c u k

sync_at-Known :
    (l : Link) (s : Bool) (c : Call) (u : Upstream) → Known u → Known (sync_at l s c u).0
unfolding sync_at
sync_at-Known no_link s c u k =
    if_rule (λ (r : Upstream × Option UpErr). Known r.0) (s && u.hub_machine) (λ h. k) (λ h. k)
sync_at-Known plain_link s c u k = k
sync_at-Known hooked s c u k =
    if_rule (λ (r : Upstream × Option UpErr). Known r.0)
      (not u.dirty && same_bool u.want u.up_on && not (u.want && s)) (λ h. k)
      (λ h. call_upstream-Known u.want c u k)

resubscribe_at-Known :
    (l : Link) (c : Call) (u : Upstream) → Known u → Known (resubscribe_at l c u).0
unfolding resubscribe_at
resubscribe_at-Known no_link c u k = k
resubscribe_at-Known plain_link c u k = k
resubscribe_at-Known hooked c u k =
    if_rule (λ (r : Upstream × Option UpErr). Known r.0) (not u.want) (λ h. k)
      (λ h. call_upstream-Known true c u k)

landed-Known :
    (i : Inflight) (took : Bool) (u : Upstream) → u.inflight ≡ i → Known u → Known (landed i took u)
unfolding landed
landed-Known idle took u e k = k
landed-Known returned took u e k = k
landed-Known (pending_call b) took u e k = record {
  agrees = λ h. (let out = k.none_out h in let out' = rw e at out in absurd (cc));
  none_out = λ h. refl;
}

up_step-Known : (u : Upstream) (e : UpEvent) → Known u → Known (up_step u e)
unfolding up_step sync_upstream resubscribe
up_step-Known u (wants b) k = record { agrees = k.agrees; none_out = k.none_out }
up_step-Known u (syncs s c) k = sync_at-Known u.link s c u k
up_step-Known u (lands took) k = landed-Known u.inflight took u refl k
up_step-Known u (relinks l c) k =
    resubscribe_at-Known l c _ (record { agrees = λ h. refl; none_out = λ h. refl })
up_step-Known u unlinks k = record { agrees = k.agrees; none_out = k.none_out }

up_run-Known : (u : Upstream) (es : List UpEvent) → Known u → Known (up_run u es)
unfolding up_run
up_run-Known u [] k = k
up_run-Known u (e ∷ es) k = up_run-Known (up_step u e) es (up_step-Known u e k)

make_call-agrees :
    (on : Bool) (c : Call) (u : Upstream)
    → (make_call on c u).1 ≡ none
    → (make_call on c u).0.far ≡ on
unfolding make_call
make_call-agrees on call_answered u h = refl
make_call-agrees on call_refused u h = absurd (cc)
make_call-agrees on call_slow u h = absurd (cc)

call_at-agrees :
    (i : Inflight) (on : Bool) (c : Call) (u : Upstream)
    → (call_at i on c u).1 ≡ none
    → (call_at i on c u).0.far ≡ on
unfolding call_at
call_at-agrees (pending_call b) on c u h = absurd (cc)
call_at-agrees idle on c u h = make_call-agrees on c u h
call_at-agrees returned on c u h = make_call-agrees on c u h

same_bool-eq : (a b : Bool) → same_bool a b ≡ true → b ≡ a
same_bool-eq true b h = h
same_bool-eq false true h = absurd (cc)
same_bool-eq false false h = refl

sync_at-agrees :
    (s : Bool) (c : Call) (u : Upstream)
    → Known u
    → (sync_at hooked s c u).1 ≡ none
    → (sync_at hooked s c u).0.far ≡ u.want
unfolding sync_at call_upstream
sync_at-agrees s c u k =
    if_rule (λ (r : Upstream × Option UpErr). r.1 ≡ none → r.0.far ≡ u.want)
      (not u.dirty && same_bool u.want u.up_on && not (u.want && s))
      (λ h e. k.agrees (ground arith) ∙ same_bool-eq u.want u.up_on (ground arith))
      (λ h e. call_at-agrees u.inflight u.want c u e)

-- After any sequence of subscribers coming and going, syncs, calls that are answered, refused or
-- late, and changes of the transport, each re-subscribed at once: a sync over a transport with the
-- hook that reports no error leaves the far daemon as this one wants it, subscribed exactly if
-- there is a subscriber.
pub sync_upstream-agrees :
    (hub : Bool) (first : Link) (es : List UpEvent) (subscribing : Bool) (c : Call)
    → (up_run (up_start hub first) es).link ≡ hooked
    → (sync_upstream subscribing c (up_run (up_start hub first) es)).1 ≡ none
    → (sync_upstream subscribing c (up_run (up_start hub first) es)).0.far
      ≡ (up_run (up_start hub first) es).want
unfolding sync_upstream
sync_upstream-agrees hub first es s c l =
    let u = up_run (up_start hub first) es in
    let k =
      up_run-Known (up_start hub first) es (record { agrees = λ h. refl; none_out = λ h. refl }) in
    subst (λ x. (sync_at x s c u).1 ≡ none → (sync_at x s c u).0.far ≡ u.want) (sym l)
      (sync_at-agrees s c u k)
