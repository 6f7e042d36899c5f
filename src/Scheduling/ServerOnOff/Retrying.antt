-- ===== src/Scheduling/ServerOnOff/Retrying.antt =====
-- The retry loop: when it ends, and with which client.
use native.Mathlib.Decide.{dec_lt}
use target_exporter.Prelude.{
  ℕ, zero, suc, ◌+◌, ◌≤◌, ◌<◌, ◌≡◌, refl, subst, ap, ◌∙◌, ◌⊎◌, inl, inr, String, some, [], ◌∷◌,
  ◌++◌, length, length-append, arith,
}
use target_exporter.Outcome.{Outcome, ok, err, IsCalm, Outcome-cases}
use target_exporter.World.{Log, St, ipmi_open, ipmi_close}
use target_exporter.Serverswitch.{
  Ipmi, Connection, IpmiServerSwitch, open_connection, close, retry_conn,
}
use target_exporter.Scheduling.ServerOnOff.{retry_server_conn}

module _ {Q : Type 0} (ipmi : Ipmi Q) where
  -- So many attempts fail, and the next one succeeds and leads to the last state.
  pub data Retries : St IpmiServerSwitch Q → ℕ → St IpmiServerSwitch Q → Type 0 where
    now : {st st' : St IpmiServerSwitch Q} → retry_conn ipmi st ≡ (ok tt, st') → Retries st 0 st'
    later :
        {st mid st' : St IpmiServerSwitch Q} {k : ℕ} {e : String}
        → retry_conn ipmi st ≡ (err e, mid)
        → Retries mid k st'
        → Retries st (suc k) st'

  retry_once :
      (fuel : ℕ) (st mid : St IpmiServerSwitch Q) (e : String)
      → retry_conn ipmi st ≡ (err e, mid)
      → retry_server_conn ipmi (suc fuel) st ≡ retry_server_conn ipmi fuel mid
  unfolding retry_server_conn
  retry_once fuel st mid e h = ground arith

  retry_last :
      (fuel : ℕ) (st st' : St IpmiServerSwitch Q)
      → retry_conn ipmi st ≡ (ok tt, st')
      → retry_server_conn ipmi (suc fuel) st ≡ (ok (some tt), st')
  unfolding retry_server_conn
  retry_last fuel st st' h = ground arith

  -- The loop ends with the first attempt that succeeds, given fuel for one attempt more than fail.
  pub retry_server_conn-Retries :
      (fuel k : ℕ) (st st' : St IpmiServerSwitch Q)
      → Retries st k st'
      → k < fuel
      → retry_server_conn ipmi fuel st ≡ (ok (some tt), st')
  retry_server_conn-Retries zero k st st' r h = absurd (omega (arith, h))
  retry_server_conn-Retries (suc fuel) k st st' (Retries.now e) h = retry_last fuel st st' e
  retry_server_conn-Retries (suc fuel) k st st' (Retries.later {mid = mid} {k = j} {e = t} e r) h =
      rw (retry_once fuel st mid t e)
        (retry_server_conn-Retries fuel j mid st' r (omega (arith, h)))

  -- The library's calls do not panic, and they succeed once so many calls have been made.
  pub record IsBackAt (n : ℕ) : Type 0 where
    pub calm_client : (c : Connection) (log : Log Q) → IsCalm (ipmi.new_client c log)
    pub calm_open : (client : ℕ) (log : Log Q) → IsCalm (ipmi.open_client client log)
    pub has_client :
        (c : Connection) (log : Log Q)
        → n ≤ length log
        → (client : ℕ) × (ipmi.new_client c log ≡ ok client)
    pub has_open : (client : ℕ) (log : Log Q) → n ≤ length log → ipmi.open_client client log ≡ ok tt

  -- The attempt succeeds with a new client, or it fails after at least one call more, before enough
  -- calls have been made.
  abbrev Attempt : ℕ → St IpmiServerSwitch Q → Outcome (Unit {0}) × St IpmiServerSwitch Q → Type 0
  Attempt n st (o, st') =
      ((o ≡ ok tt) × ((client : ℕ) × (st'.own ≡ record st.own { c = some client })))
      ⊎ ((t : String) × (o ≡ err t)
          × (st'.own ≡ st.own)
          × (length st.log + 1 ≤ length st'.log)
          × (length st.log + 1 < n))

  client_before :
      (n : ℕ) (c : Connection) (log : Log Q) (t : String)
      → IsBackAt n
      → ipmi.new_client c log ≡ err t
      → length log < n
  client_before n c log t back e = elim (dec_lt (length log) n) [
    | yes h ↦ h
    | no h ↦ absurd (let (client, fine) = back.has_client c log (omega arith) in cc)
  ]

  open_before :
      (n client : ℕ) (log : Log Q) (t : String)
      → IsBackAt n
      → ipmi.open_client client log ≡ err t
      → length log < n
  open_before n client log t back e = elim (dec_lt (length log) n) [
    | yes h ↦ h
    | no h ↦ absurd (let fine = back.has_open client log (omega arith) in cc)
  ]

  retry_conn-Attempt :
      (n client : ℕ) (st : St IpmiServerSwitch Q)
      → IsBackAt n
      → st.own.c ≡ some client
      → Attempt n st (retry_conn ipmi st)
  unfolding retry_conn open_connection close
  retry_conn-Attempt n client st back e =
      let log = st.log ++ (ipmi_close client ∷ []) in
      let one = length-append st.log (ipmi_close client ∷ []) in
      elim (Outcome-cases (ipmi.new_client st.own.connection log)) [
        | inl (c, ec) ↦ elim (Outcome-cases (ipmi.open_client c log)) [
          | inl (u, eo) ↦ rw (e, retry_conn, ec, eo) (inl (refl, (c, refl)))
          | inr (inl (t, eo)) ↦
              (let two = length-append log (ipmi_open c ∷ []) in
                let soon = open_before n c log t back eo in
                rw (e, retry_conn, ec, eo)
                  (inr (t, refl, refl, omega (arith, one, two), omega (arith, one, soon))))
          | inr (inr eo) ↦ absurd (subst IsCalm eo (back.calm_open c log))
        ]
        | inr (inl (t, ec)) ↦
            (let soon = client_before n st.own.connection log t back ec in
              rw (e, retry_conn, ec)
                (inr (t, refl, refl, omega (arith, one), omega (arith, one, soon))))
        | inr (inr ec) ↦ absurd (subst IsCalm ec (back.calm_client st.own.connection log))
      ]

  abbrev with_client : ℕ → IpmiServerSwitch → IpmiServerSwitch
  with_client new i = record i { c = some new }

  outcome_of :
      (st : St IpmiServerSwitch Q) {o : Outcome (Unit {0})}
      → (retry_conn ipmi st).0 ≡ o
      → retry_conn ipmi st ≡ (o, (retry_conn ipmi st).1)
  outcome_of st e = ap (λ x. (x, (retry_conn ipmi st).1)) e

  -- Where the IPMI library does not panic and connects once `n` calls have been made, the loop of
  -- retryServerConn on a switch that has a client ends without an error, given fuel for each of the
  -- calls still missing and for at least one attempt: the switch has a new client, and is else as
  -- before.
  pub retry_server_conn-ends :
      (n client fuel : ℕ) (st : St IpmiServerSwitch Q)
      → IsBackAt n
      → st.own.c ≡ some client
      → n ≤ length st.log + suc fuel
      → (st' : St IpmiServerSwitch Q) × (new : ℕ) × (retry_server_conn ipmi (suc fuel) st
          ≡ (ok (some tt), st'))
        × (st'.own ≡ record st.own { c = some new })
  retry_server_conn-ends n client zero st back e h = elim (retry_conn-Attempt n client st back e) [
    | inl (fine, (new, same)) ↦
        ((retry_conn ipmi st).1, new, retry_last 0 st _ (outcome_of st fine), same)
    | inr (t, failed, same, longer, soon) ↦ absurd (omega (arith, h, soon))
  ]
  retry_server_conn-ends n client (suc fuel) st back e h =
      elim (retry_conn-Attempt n client st back e) [
        | inl (fine, (new, same)) ↦
            ((retry_conn ipmi st).1, new, retry_last (suc fuel) st _ (outcome_of st fine), same)
        | inr (t, failed, same, longer, soon) ↦
            let mid = (retry_conn ipmi st).1 in
            let (st', new, ended, only) =
              retry_server_conn-ends n client fuel mid back (ap (λ i. i.c) same ∙ e)
                (omega (arith, h, longer)) in
            (
              st',
              new,
              retry_once (suc fuel) st mid t (outcome_of st failed) ∙ ended,
              only ∙ ap (with_client new) same,
            )
      ]
