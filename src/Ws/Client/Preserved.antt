-- ===== src/Ws/Client/Preserved.antt =====
-- wotpy/protocols/ws/client.py: what the requests rely on, step by step.
use wot_py.Prelude.{
  some-injective, ℕ, String, Option, none, some, true, false, ◌≡◌, ◌≢◌, refl, sym, ap, ◌∙◌, subst,
  eq_refl, arith, ok,
}
use wot_py.Refs.{ConnRefCounter, decrease}
use wot_py.Refs.Members.{is_ref}
use wot_py.Ws.Client.{
  WsClient, Ending, put_url, init_begin, init_end, send_begin, send_end, stop_begin, stop_signal,
  stop_end,
}
use wot_py.Ws.Client.Kept.{
  holds, uses, sends, owns, Preserves, Preserves-refl, init_end-KeepsUrls, send_begin-KeepsUrls,
  send_end-KeepsUrls, stop_signal-KeepsUrls, stop_end-others, send_begin-on, sent_from,
}
use wot_py.Ws.Client.Steps.{
  Tasks, starting, connecting, ready, writing, written, waiting, woken, closing, draining, finished,
  System, moved,
}
use wot_py.Ws.Client.Supported.{
  HasSupport, IsSupported, keeps_support, moved-IsSupported, no_support, not_owned, not_owned_by,
  quiet, uses-holds, using_support, closing_support, connecting_support, draining_support,
  HaveOwnRefs, keeps_ref-increase, keeps_ref-decrease, has_ref-increase, no_refs,
}
use wot_py.Ws.Client.Effects.{send_end-counter}

module _ (tasks : Tasks) (own_refs : HaveOwnRefs tasks) (s : System) (i : IsSupported tasks s)
    (k : ℕ) where
  abbrev url : String
  url = tasks.url k

  abbrev ref : String
  ref = tasks.ref_id k

  -- the others, at a step that takes a reference under the free lock
  refs_added :
      (lock : Option ℕ)
      → s.holder ≡ none
      → (j : ℕ) → j ≢ k
      → HasSupport tasks j (s.phase j) s.holder s.client
      → HasSupport tasks j (s.phase j) lock (init_begin url ref s.client).0
  unfolding init_begin
  refs_added lock free j n h =
      keeps_support tasks j (s.phase j) s.holder lock s.client (init_begin url ref s.client).0
        (λ e r. keeps_ref-increase url ref (tasks.url j) (tasks.ref_id j) s.client.counter r)
        (λ e. Preserves-refl (s.client.at_url (tasks.url j)))
        (λ e. absurd (not_owned tasks j s free h e)) h

  -- the others, at a step that gives up a reference under the free lock and changes the URLs
  refs_dropped :
      (lock : Option ℕ) (d : WsClient)
      → s.holder ≡ none
      → d.counter ≡ decrease url ref s.client.counter
      → ((j : ℕ)
          → j ≢ k
          → uses (s.phase j) ≡ true
          → Preserves (s.client.at_url (tasks.url j)) (d.at_url (tasks.url j)))
      → (j : ℕ) → j ≢ k
      → HasSupport tasks j (s.phase j) s.holder s.client
      → HasSupport tasks j (s.phase j) lock d
  refs_dropped lock d free e urls j n h =
      keeps_support tasks j (s.phase j) s.holder lock s.client d
        (λ x r.
          ap (is_ref (tasks.url j) (tasks.ref_id j)) e
          ∙ keeps_ref-decrease url ref (tasks.url j) (tasks.ref_id j) s.client.counter
              (λ y. own_refs j k n (sym y)) r)
        (urls j n) (λ x. absurd (not_owned tasks j s free h x)) h

  -- the others, at a step that lets go of the lock
  unlocked :
      (d : WsClient)
      → s.holder ≡ some k
      → d.counter ≡ s.client.counter
      → ((j : ℕ)
          → j ≢ k
          → uses (s.phase j) ≡ true
          → Preserves (s.client.at_url (tasks.url j)) (d.at_url (tasks.url j)))
      → (j : ℕ) → j ≢ k
      → HasSupport tasks j (s.phase j) s.holder s.client
      → HasSupport tasks j (s.phase j) none d
  unlocked d held e urls j n h =
      keeps_support tasks j (s.phase j) s.holder none s.client d
        (λ x r. ap (is_ref (tasks.url j) (tasks.ref_id j)) e ∙ r) (urls j n)
        (λ x. absurd (not_owned_by tasks j k s held n h x)) h

  -- No other request uses a URL without references.
  unused :
      (c : ConnRefCounter)
      → ((q : String) → is_ref url q c ≡ false)
      → (j : ℕ) → is_ref (tasks.url j) (tasks.ref_id j) c ≡ true
      → tasks.url j ≢ url
  unused c none_left j r e =
      clash (sym (none_left (tasks.ref_id j)) ∙ subst (λ u. is_ref u (tasks.ref_id j) c ≡ true) e r)
    where
      clash : false ≡ true → ⊥
      clash x = cc

  pub share-IsSupported :
      (s.phase k ≡ starting)
      → s.holder ≡ none
      → (init_begin url ref s.client).1 ≡ false
      → IsSupported tasks (moved k ready none (init_begin url ref s.client).0 s)
  unfolding init_begin
  share-IsSupported p free b =
      moved-IsSupported tasks k ready none (init_begin url ref s.client).0 s
        (using_support tasks k none (init_begin url ref s.client).0 ready refl
          (has_ref-increase url ref s.client.counter) (ground (arith, b)) (λ e. cc)
          (λ e. absurd (not_woken e)))
        (refs_added none free) i
    where
      not_woken : ready ≡ woken → ⊥
      not_woken e = cc

  pub connect-IsSupported :
      s.holder ≡ none
      → IsSupported tasks (moved k connecting (some k) (init_begin url ref s.client).0 s)
  unfolding init_begin
  connect-IsSupported free =
      moved-IsSupported tasks k connecting (some k) (init_begin url ref s.client).0 s
        (connecting_support tasks k (some k) (init_begin url ref s.client).0
          (has_ref-increase url ref s.client.counter) refl)
        (refs_added (some k) free) i

  pub connect_ok-IsSupported :
      s.phase k ≡ connecting → IsSupported tasks (moved k ready none (init_end url s.client) s)
  connect_ok-IsSupported p =
      moved-IsSupported tasks k ready none (init_end url s.client) s
        (using_support tasks k none (init_end url s.client) ready refl ref_kept
          (unfold init_end put_url in ground (arith, eq_refl url)) (λ e. cc)
          (λ e. absurd (not_woken e)))
        (unlocked (init_end url s.client) ((i k).locked (ap owns p))
          (unfold init_end put_url in refl)
          (λ j n u. init_end-KeepsUrls url s.client (tasks.url j)))
        i
    where
      not_woken : ready ≡ woken → ⊥
      not_woken e = cc

      ref_kept : is_ref url ref (init_end url s.client).counter ≡ true
      ref_kept = unfold init_end put_url in (i k).reference (ap holds p)

  pub connect_fails-IsSupported :
      (r : Ending)
      → s.phase k ≡ connecting
      → IsSupported tasks (moved k (closing r) none s.client s)
  connect_fails-IsSupported r p =
      moved-IsSupported tasks k (closing r) none s.client s
        (closing_support tasks k none s.client r ((i k).reference (ap holds p)))
        (unlocked s.client ((i k).locked (ap owns p)) refl
          (λ j n u. Preserves-refl (s.client.at_url (tasks.url j))))
        i

  -- a step into `finally`
  pub closes-IsSupported :
      (r : Ending)
      → holds (s.phase k) ≡ true
      → IsSupported tasks (moved k (closing r) s.holder s.client s)
  closes-IsSupported r h =
      quiet tasks k (closing r) s.client s refl (λ u. Preserves-refl (s.client.at_url u))
        (closing_support tasks k s.holder s.client r ((i k).reference h)) i

  pub send-IsSupported :
      (c : WsClient)
      → s.phase k ≡ ready
      → send_begin url s.client ≡ some c
      → IsSupported tasks (moved k writing s.holder c s)
  send-IsSupported c p e =
      let h = i k in
      let on = h.connection (ap uses p) in
      let x : sent_from url s.client ≡ c =
        some-injective (sym (send_begin-on url s.client on) ∙ e) in
      subst (λ d. IsSupported tasks (moved k writing s.holder d s)) x
        (quiet tasks k writing (sent_from url s.client) s (unfold put_url in refl)
          (send_begin-KeepsUrls url s.client (sent_from url s.client)
            (send_begin-on url s.client on))
          (using_support tasks k s.holder (sent_from url s.client) writing refl
            (ref_kept h (ap holds p))
            ((send_begin-KeepsUrls url s.client (sent_from url s.client)
                (send_begin-on url s.client on) url).on
              on)
            (λ y. unfold put_url in ground (arith, eq_refl url)) (λ y. absurd (not_woken y)))
          i)
    where
      not_woken : writing ≡ woken → ⊥
      not_woken y = cc

      ref_kept :
          HasSupport tasks k (s.phase k) s.holder s.client
          → holds (s.phase k) ≡ true
          → is_ref url ref (sent_from url s.client).counter ≡ true
      ref_kept h y = unfold put_url in h.reference y

  pub write-IsSupported :
      (c : WsClient)
      → s.phase k ≡ writing
      → send_end url (tasks.msg_id k) s.client ≡ ok c
      → IsSupported tasks (moved k written s.holder c s)
  write-IsSupported c p e =
      let h = i k in
      let urls = send_end-KeepsUrls url (tasks.msg_id k) s.client c e in
      let same = send_end-counter url (tasks.msg_id k) s.client c e in
      quiet tasks k written c s same urls
        (using_support tasks k s.holder c written refl
          (ap (is_ref url ref) same ∙ h.reference (ap holds p))
          ((urls url).on (h.connection (ap uses p)))
          (λ y. (urls url).conditioned (h.conditions (ap sends p))) (λ y. absurd (not_woken y)))
        i
    where
      not_woken : written ≡ woken → ⊥
      not_woken y = cc

  pub wait-IsSupported :
      s.phase k ≡ written → IsSupported tasks (moved k waiting s.holder s.client s)
  wait-IsSupported p =
      let h = i k in
      quiet tasks k waiting s.client s refl (λ u. Preserves-refl (s.client.at_url u))
        (using_support tasks k s.holder s.client waiting refl (h.reference (ap holds p))
          (h.connection (ap uses p)) (λ y. h.conditions (ap sends p)) (λ y. absurd (not_woken y)))
        i
    where
      not_woken : waiting ≡ woken → ⊥
      not_woken y = cc

  pub leave-IsSupported :
      (r : Ending)
      → s.holder ≡ none
      → IsSupported tasks (moved k (finished r) none (stop_begin url ref s.client).0 s)
  unfolding stop_begin
  leave-IsSupported r free =
      moved-IsSupported tasks k (finished r) none (stop_begin url ref s.client).0 s
        (no_support tasks k r none (stop_begin url ref s.client).0)
        (refs_dropped none (stop_begin url ref s.client).0 free refl
          (λ j n u. Preserves-refl (s.client.at_url (tasks.url j))))
        i

  pub stop-IsSupported :
      (r : Ending)
      → s.holder ≡ none
      → (stop_begin url ref s.client).1 ≡ false
      → IsSupported tasks
          (moved k (draining r) (some k) (stop_signal url (stop_begin url ref s.client).0) s)
  unfolding stop_begin
  stop-IsSupported r free b =
      let c = (stop_begin url ref s.client).0 in
      let same : (stop_signal url c).counter ≡ decrease url ref s.client.counter =
        unfold stop_signal put_url in refl in
      moved-IsSupported tasks k (draining r) (some k) (stop_signal url c) s
        (draining_support tasks k (some k) (stop_signal url c) r refl
          (λ q. ap (is_ref url q) same ∙ no_refs url (decrease url ref s.client.counter) b q))
        (refs_dropped (some k) (stop_signal url c) free same
          (λ j n u. stop_signal-KeepsUrls url c (tasks.url j)))
        i

  pub stop_unconnected-IsSupported :
      (r : Ending)
      → s.holder ≡ none
      → (stop_begin url ref s.client).1 ≡ false
      → IsSupported tasks
          (moved k (finished r) none (stop_end url (stop_begin url ref s.client).0) s)
  unfolding stop_begin
  stop_unconnected-IsSupported r free b =
      let c = (stop_begin url ref s.client).0 in
      let dropped = decrease url ref s.client.counter in
      let same : (stop_end url c).counter ≡ dropped = unfold stop_end put_url in refl in
      moved-IsSupported tasks k (finished r) none (stop_end url c) s
        (no_support tasks k r none (stop_end url c))
        (refs_dropped none (stop_end url c) free same (λ j n u.
          stop_end-others url (tasks.url j) c (
            unused dropped (no_refs url dropped b) j (
              keeps_ref-decrease url ref (tasks.url j) (tasks.ref_id j) s.client.counter
                (λ y. own_refs j k n (sym y)) ((i j).reference (uses-holds (s.phase j) u))))))
        i

  pub drained-IsSupported :
      (r : Ending)
      → s.phase k ≡ draining r
      → IsSupported tasks (moved k (finished r) none (stop_end url s.client) s)
  drained-IsSupported r p =
      moved-IsSupported tasks k (finished r) none (stop_end url s.client) s
        (no_support tasks k r none (stop_end url s.client))
        (unlocked (stop_end url s.client) ((i k).locked (ap owns p))
          (unfold stop_end put_url in refl)
          (λ j n u. stop_end-others url (tasks.url j) s.client (
            unused s.client.counter ((i k).alone r p) j
              ((i j).reference (uses-holds (s.phase j) u)))))
        i
