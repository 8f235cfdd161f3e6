-- ===== src/Realtime/Hub/Delivery.antt =====
-- What one broadcast leaves in the channel of a subscription.
use cairnops.Common.{
  ℕ, ◌≤◌, ◌≡◌, refl, true, false, not, List, [], ◌∷◌, ◌++◌, ltb, ltb→lt, length, arith, ◌∙◌,
  Bool-cases, inl, inr, append_assoc,
}
use cairnops.Common.Text.{length-snoc}
use cairnops.Realtime.Table.{Event}
use cairnops.Realtime.Hub.{Subscription, deliver, end_locked, lagging}

-- `rest` is what did not fit: empty as long as the subscription stays registered.
pub record IsDelivered (capacity : ℕ) (events : List Event) (s t : Subscription) : Type 0 where
  pub rest : List Event
  pub log : t.events ++ rest ≡ s.events ++ events
  pub whole : t.registered ≡ true → rest ≡ []
  pub shut : t.is_closed ≡ not t.registered
  pub fits : length t.events ≤ capacity
  pub taken : t.taken ≡ s.taken
  pub since : t.version ≡ s.version

deliver_cut :
    (capacity : ℕ) (e : Event) (es : List Event) (s : Subscription)
    → s.registered ≡ true
    → length s.events ≤ capacity
    → IsDelivered capacity (e ∷ es) s (end_locked lagging s)
unfolding end_locked
deliver_cut capacity e es s r f = rw r (record {
  rest = e ∷ es;
  log = refl;
  whole = λ h. cc;
  shut = refl;
  fits = f;
  taken = refl;
  since = refl;
})

pub deliver-IsDelivered :
    (capacity : ℕ) (events : List Event) (s : Subscription)
    → s.registered ≡ true
    → s.is_closed ≡ false
    → length s.events ≤ capacity
    → IsDelivered capacity events s (deliver capacity events s)
unfolding deliver
deliver-IsDelivered capacity [] s r c f = record {
  rest = [];
  log = refl;
  whole = λ h. refl;
  shut = rw (r, c);
  fits = f;
  taken = refl;
  since = refl;
}
deliver-IsDelivered capacity (e ∷ es) s r c f = elim (Bool-cases (ltb (length s.events) capacity)) [
  | inl room ↦
      let next : Subscription = record s { events = s.events ++ (e ∷ []) } in
      let sent : IsDelivered capacity es next (deliver capacity es next) =
        deliver-IsDelivered capacity es (record s { events = s.events ++ (e ∷ []) }) r c
          (omega (arith, length-snoc s.events e, ltb→lt (length s.events) capacity room)) in
      rw room (record {
        rest = sent.rest;
        log = sent.log ∙ append_assoc s.events (e ∷ []) es;
        whole = sent.whole;
        shut = sent.shut;
        fits = sent.fits;
        taken = sent.taken;
        since = sent.since;
      })
  | inr full ↦ rw full (deliver_cut capacity e es s r f)
]
