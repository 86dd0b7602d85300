-- ===== src/Windows/Opening.antt =====
-- How a device of tun_windows.go is made: its adapter and its session.
use subpass.Go.Error.{wrap}
use subpass.Base.{ℕ, ◌+◌, ◌≡◌, inl, inr, arith, Option-cases, ◌==◌, if◌then◌else◌}
use subpass.Go.Result.{Result, ok, err, panic, Result-cases}
use subpass.Go.Kernel.{told, Kernel, History, Call, wintun, Wintun, made}
use subpass.Base.{refl, []}
use subpass.Go.Kernel.Held.{
  Holds, then-Holds, wrapped-Holds, bind-Holds, sys-Holds, told-Holds, mapping-Holds,
  on_error-Holds, or_else-Holds, lift-Holds,
}
use mathlib.Core.Path.{subst}
use subpass.Base.{false}
use subpass.Go.Kernel.Inversion.{Returns}
use subpass.Windows.{close, create_tun_device, TunDevice, open_tun_device}
use subpass.Windows.Settings.{Config, check_wintun_config, check_wintun_config-ne-panic}
use subpass.Windows.Tally.{tally, adapter_opening, adapter_closing, session_start, session_end}

-- How often the adapter a and the session s were acquired and given back, between two histories:
-- the same number of times, but for those that a device holds.
abbrev pub Keeps : ℕ → ℕ → History → ℕ → ℕ → History → Type 0
Keeps a s h adapters sessions h' =
    (tally (adapter_opening a) h' + tally (adapter_closing a) h
      ≡ tally (adapter_opening a) h + tally (adapter_closing a) h' + adapters)
    × (tally (session_start s) h' + tally (session_end s) h
        ≡ tally (session_start s) h + tally (session_end s) h' + sessions)

-- A device holds its adapter and its session; an error holds nothing. There is no panic.
abbrev pub Keeping : ℕ → ℕ → History → Result TunDevice × History → Type 0
Keeping a s h (ok tun, h') =
    Keeps a s h (if tun.adaptor == a then 1 else 0) (if tun.session == s then 1 else 0) h'
Keeping a s h (err e, h') = Keeps a s h 0 0 h'
Keeping a s h (panic, h') = ⊥

module _ (kernel : Kernel) (config : Config) where
  abbrev open_call : Call
  open_call = wintun (Wintun.open_adapter config.name)

  abbrev create_call : Call
  create_call = wintun (Wintun.create_adapter config.name config.kind config.guid)

  abbrev start_call : ℕ → Call
  start_call a = wintun (Wintun.start_session a config.ring_capacity)

  -- Whatever Wintun does, `openTunDevice` leaves exactly the adapter and the session of the device
  -- that it returns open, and neither an adapter nor a session when it returns an error.
  pub open_tun_device-Keeping :
      (a s : ℕ) (h : History) → Keeping a s h (open_tun_device kernel config h)
  unfolding open_tun_device
  open_tun_device-Keeping a s h =
      let opened = kernel h open_call in
      let h' = made kernel open_call h in
      let created = kernel h' create_call in
      elim (Result-cases (check_wintun_config config)) [
        | inl (u, usable) ↦ elim (Option-cases opened.errno) [
          | inl found ↦ elim (Option-cases (kernel h' (start_call opened.value)).errno) [
            | inl started ↦ ground arith
            | inr (x, failed) ↦ ground arith
          ]
          | inr (x, missing) ↦ elim (Option-cases created.errno) [
            | inl made_one ↦
                elim (Option-cases
                  (kernel (made kernel create_call h') (start_call created.value)).errno) [
                    | inl started ↦ ground arith
                    | inr (y, failed) ↦ ground arith
                  ]
            | inr (y, refused) ↦ ground arith
          ]
        ]
        | inr (inl (x, bad)) ↦ ground arith
        | inr (inr bad) ↦ absurd (check_wintun_config-ne-panic config bad)
      ]

module _ (kernel : Kernel) (config : Config) where
  -- No file descriptor comes into it.
  pub open_tun_device-Holds : Holds [] (open_tun_device kernel config) (λ _. []) []
  unfolding open_tun_device create_tun_device
  open_tun_device-Holds =
      mapping-Holds _ _ [] (λ _. []) []
        (lift-Holds (check_wintun_config config) _ [] (λ _. [])
          (check_wintun_config-ne-panic config)
          (λ _ e.
            bind-Holds _ _ [] (λ _. []) (λ _. []) []
              (or_else-Holds _ _ [] [] (λ _. []) [] (sys-Holds kernel _ [] refl)
                (mapping-Holds _ _ [] (λ _. []) [] (sys-Holds kernel _ [] refl)))
              (λ adapter.
                let release = told kernel (wintun (Wintun.close_adapter adapter.value)) in
                bind-Holds _ _ [] (λ _. []) (λ _. []) []
                  (on_error-Holds release _ [] [] (λ _. []) []
                    (mapping-Holds _ _ [] (λ _. []) []
                      (sys-Holds kernel (start_call kernel config adapter.value) [] refl))
                    (told-Holds kernel (wintun (Wintun.close_adapter adapter.value)) [] refl))
                  (λ ssn h.
                    told-Holds kernel (wintun (Wintun.read_wait_event ssn.value)) [] refl h))))

pub close-Holds :
    (kernel : Kernel) (tun : TunDevice) → Holds [] (close kernel tun false) (λ _. []) []
unfolding close
close-Holds kernel tun =
    let event = wintun (Wintun.set_event tun.read_wait) in
    let session = wintun (Wintun.end_session tun.session) in
    let adapter = wintun (Wintun.close_adapter tun.adaptor) in
    then-Holds (told kernel event) _ [] (λ _. []) [] (told-Holds kernel event [] refl)
      (λ _.
        then-Holds (told kernel session) _ [] (λ _. []) [] (told-Holds kernel session [] refl)
          (λ _. wrapped-Holds (wrap "close") kernel adapter [] refl))

-- Whatever Wintun does, when `openTunDevice` has returned a device and `Close` has run on it, every
-- adapter and every session was given back as often as it was acquired.
pub open_tun_device-close :
    (kernel : Kernel) (config : Config) (a s : ℕ) (h h' : History) {tun : TunDevice}
    → Returns (open_tun_device kernel config) h tun h'
    → Keeps a s h 0 0 (close kernel tun false h').1
unfolding close
open_tun_device-close kernel config a s h h' {tun} e =
    let kept = open_tun_device-Keeping kernel config a s h in
    let held : Keeping a s h (ok tun, h') = subst (Keeping a s h) e kept in
    elim (Option-cases
      (kernel
        (made kernel (wintun (Wintun.end_session tun.session))
          (made kernel (wintun (Wintun.set_event tun.read_wait)) h'))
        (wintun (Wintun.close_adapter tun.adaptor))).errno) [
          | inl good ↦ ground arith
          | inr (x, bad) ↦ ground arith
        ]
