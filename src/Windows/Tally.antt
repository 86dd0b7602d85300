-- ===== src/Windows/Tally.antt =====
-- How often a history gives something out and takes it back: a session's packets and the adapters.
use subpass.Base.{ℕ, ◌+◌, ◌&&◌, [], ◌∷◌, ◌==◌, if◌then◌else◌}
use subpass.Go.Kernel.{Call, wintun, Wintun, Reply, History}
use subpass.Go.Kernel.Held.{succeeded}

abbrev pub tally : (Call → Reply → ℕ) → History → ℕ
tally gain [] = 0
tally gain (e ∷ h) = gain e.call e.reply + tally gain h

module _ (s p : ℕ) where
  -- A packet of the place p from the ring of the session s.
  abbrev pub receipt : Call → Reply → ℕ
  receipt (wintun (Wintun.receive_packet t)) r =
      if succeeded r.errno && (t == s && r.value == p) then 1 else 0
  receipt _ r = 0

  abbrev pub release : Call → Reply → ℕ
  release (wintun (Wintun.release_receive_packet t q)) r = if t == s && q == p then 1 else 0
  release _ r = 0

module _ (a : ℕ) where
  abbrev pub adapter_opening : Call → Reply → ℕ
  adapter_opening (wintun (Wintun.open_adapter name)) r =
      if succeeded r.errno then (if r.value == a then 1 else 0) else 0
  adapter_opening (wintun (Wintun.create_adapter name kind guid)) r =
      if succeeded r.errno then (if r.value == a then 1 else 0) else 0
  adapter_opening _ r = 0

  abbrev pub adapter_closing : Call → Reply → ℕ
  adapter_closing (wintun (Wintun.close_adapter b)) r = if b == a then 1 else 0
  adapter_closing _ r = 0

module _ (s : ℕ) where
  abbrev pub session_start : Call → Reply → ℕ
  session_start (wintun (Wintun.start_session a capacity)) r =
      if succeeded r.errno then (if r.value == s then 1 else 0) else 0
  session_start _ r = 0

  abbrev pub session_end : Call → Reply → ℕ
  session_end (wintun (Wintun.end_session t)) r = if t == s then 1 else 0
  session_end _ r = 0
