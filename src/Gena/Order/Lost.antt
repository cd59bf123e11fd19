-- ===== src/Gena/Order/Lost.antt =====
-- What a lost job does to a subscription of src/gena/gena_server.c.
use upnpsdk.Prelude.{
  ℕ, ◌+◌, ◌<◌, ◌≤◌, ◌≡◌, ◌≢◌, refl, sym, ap, ◌∙◌, inl, inr, true, List, arith, some,
}
use upnpsdk.ServiceTable.{Subscription}
use upnpsdk.Gena.{next_key}
use upnpsdk.Gena.Thread.{sends, start_found}
use upnpsdk.Gena.Order.{
  unissued, waiting, sending, over, Channel, key_count, do_issue, do_lose, issues, requeues, starts,
  finishes, Steps, stay, then, fresh,
}
use upnpsdk.Gena.Order.Keys.{key_at, key_at-distinct}
use upnpsdk.Gena.Order.Invariant.{
  IsOrderly, fresh-IsOrderly, sending-eq, set_at-here, set_at-there, lt_or_ge, start_key,
  key_at_next,
}
use upnpsdk.Gena.Order.Serial.{Steps-IsOrderly}

-- The job of event `e`, whose turn it is, is gone.
record IsStuck (e : ℕ) (begun : List ℕ) (c : Channel) : Type 0 where
  event_key : c.sub.event_key ≡ key_at c.issued
  to_send_event_key : c.sub.to_send_event_key ≡ key_at e
  done : c.done ≡ e
  bound : e < c.issued
  window : c.issued < e + key_count
  keys : (n : ℕ) → n < c.issued → c.key n ≡ key_at n
  past : (n : ℕ) → n ≤ e → c.phase n ≡ over
  idle : (n : ℕ) → c.phase n ≢ sending
  future : (n : ℕ) → c.issued ≤ n → c.phase n ≡ unissued
  same : c.begun ≡ begun

issue-IsStuck :
    (e : ℕ) (l : List ℕ) (c : Channel)
    → c.issued + 1 < c.done + key_count
    → IsStuck e l c
    → IsStuck e l (do_issue c)
issue-IsStuck e l c w i = record {
  event_key = ap next_key i.event_key ∙ key_at_next c.issued;
  to_send_event_key = i.to_send_event_key;
  done = i.done;
  bound = omega (arith, i.bound);
  window = omega (arith, w, i.done);
  keys = λ n h. elim (lt_or_ge n c.issued) [
    | inl k ↦ set_at-there c.issued n c.sub.event_key c.key (λ q. omega (arith, q, k)) ∙ i.keys n k
    | inr k ↦
        let q : n ≡ c.issued = omega (arith, h, k) in
        rw q (set_at-here c.issued c.sub.event_key c.key ∙ i.event_key)
  ];
  past = λ n h.
      set_at-there c.issued n waiting c.phase (λ q. omega (arith, q, h, i.bound)) ∙ i.past n h;
  idle = λ n q. elim (lt_or_ge n c.issued) [
    | inl k ↦
        i.idle n (sym (set_at-there c.issued n waiting c.phase (λ r. omega (arith, r, k))) ∙ q)
    | inr k ↦ elim (lt_or_ge c.issued n) [
      | inl m ↦
          let r =
            sym (i.future n k)
            ∙ sym (set_at-there c.issued n waiting c.phase (λ r. omega (arith, r, m)))
            ∙ q in
          cc
      | inr m ↦
          let r : n ≡ c.issued = omega (arith, k, m) in
          let p = sym (set_at-here c.issued waiting c.phase) ∙ ap (do_issue c).phase (sym r) ∙ q in
          cc
    ]
  ];
  future = λ n h.
      set_at-there c.issued n waiting c.phase (λ q. omega (arith, q, h))
      ∙ i.future n (omega (arith, h));
  same = i.same;
}

-- No job starts any more.
no_start :
    (e : ℕ) (l : List ℕ) (c : Channel) (n : ℕ) (copy : Subscription)
    → c.phase n ≡ waiting
    → start_found true (c.key n) (some c.sub) ≡ sends copy
    → IsStuck e l c
    → ⊥
no_start e l c n copy p s i = elim (lt_or_ge n c.issued) [
  | inr k ↦ let r = sym (i.future n k) ∙ p in cc
  | inl k ↦ elim (lt_or_ge e n) [
    | inr m ↦ let r = sym (i.past n m) ∙ p in cc
    | inl m ↦
        let q =
          key_at-distinct e n (omega (arith, m)) (omega (arith, k, i.window))
            (sym i.to_send_event_key ∙ sym (start_key (c.key n) c.sub copy s) ∙ i.keys n k) in
        omega (arith, q, m)
  ]
]

Steps-IsStuck : (e : ℕ) (l : List ℕ) (c d : Channel) → Steps c d → IsStuck e l c → IsStuck e l d
Steps-IsStuck e l c d (stay _) i = i
Steps-IsStuck e l c d (then _ b _ r (issues _ w)) i =
    issue-IsStuck e l b w (Steps-IsStuck e l c b r i)
Steps-IsStuck e l c d (then _ b _ r (requeues _ n p s)) i = Steps-IsStuck e l c b r i
Steps-IsStuck e l c d (then _ b _ r (starts _ n copy p s)) i =
    absurd (no_start e l b n copy p s (Steps-IsStuck e l c b r i))
Steps-IsStuck e l c d (then _ b _ r (finishes _ n p)) i =
    absurd ((Steps-IsStuck e l c b r i).idle n p)

lost-IsStuck :
    (c : Channel)
    → c.phase c.done ≡ waiting
    → IsOrderly c
    → IsStuck c.done c.begun (do_lose c.done c)
lost-IsStuck c p i =
    let issued : c.done < c.issued = elim (lt_or_ge c.done c.issued) [
      | inl h ↦ h
      | inr h ↦ absurd (let r = sym (i.future c.done h) ∙ p in cc)
    ] in
    record {
      event_key = i.event_key;
      to_send_event_key = i.to_send_event_key;
      done = refl;
      bound = issued;
      window = i.window;
      keys = i.keys;
      past = λ n h. elim (lt_or_ge n c.done) [
        | inl k ↦ set_at-there c.done n over c.phase (λ q. omega (arith, q, k)) ∙ i.past n k
        | inr k ↦ let q : n ≡ c.done = omega (arith, h, k) in rw q (set_at-here c.done over c.phase)
      ];
      idle = λ n q. elim (lt_or_ge n c.done) [
        | inl k ↦
            let r =
              sym (i.past n k)
              ∙ sym (set_at-there c.done n over c.phase (λ r. omega (arith, r, k)))
              ∙ q in
            cc
        | inr k ↦ elim (lt_or_ge c.done n) [
          | inl m ↦
              let r =
                sending-eq c n i
                  (sym (set_at-there c.done n over c.phase (λ r. omega (arith, r, m))) ∙ q) in
              omega (arith, r, m)
          | inr m ↦
              let r : n ≡ c.done = omega (arith, k, m) in
              let e =
                sym (set_at-here c.done over c.phase) ∙ ap (do_lose c.done c).phase (sym r) ∙ q in
              cc
        ]
      ];
      future = λ n h.
          set_at-there c.done n over c.phase (λ q. omega (arith, q, h, issued)) ∙ i.future n h;
      same = refl;
    }

-- When the job whose turn it is is lost, no further message of the subscription is sent, and no job ends,
-- while the events that have been issued since its own, and it, are fewer than 2^31 - 1. Up to the loss no other job was refused, and the subscription
-- neither expires nor is removed.
pub lost-silent :
    (s : Subscription) (c d : Channel)
    → Steps (fresh s) c
    → c.phase c.done ≡ waiting
    → Steps (do_lose c.done c) d
    → (d.begun ≡ c.begun) × (d.done ≡ c.done)
lost-silent s c d r p t =
    let i = Steps-IsOrderly (fresh s) c r (fresh-IsOrderly s) in
    let j = Steps-IsStuck c.done c.begun (do_lose c.done c) d t (lost-IsStuck c p i) in
    (j.same, j.done)
