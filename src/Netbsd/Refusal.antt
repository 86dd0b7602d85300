-- ===== src/Netbsd/Refusal.antt =====
-- What `openTunDevice` of tun_netbsd.go does when a mode cannot be set.
use subpass.Base.{ℕ, ◌≡◌, ◌≢◌, none, ◌⊎◌}
use subpass.Go.Error.{Error}
use subpass.Go.Result.{Result}
use subpass.Go.Kernel.{Kernel, History, File, Call, Ioctl, made}

-- The history after the request that failed: the first of the two, or the second.
abbrev pub IsRefused : Kernel → ℕ → History → History → Type 0
IsRefused kernel fd h h' =
    let head = Call.ioctl fd (Ioctl.tunsifhead 1) in
    let mode = Call.ioctl fd Ioctl.tunsifmode in
    ((h' ≡ made kernel head h) × ((kernel h head).errno ≢ none))
    ⊎ ((h' ≡ made kernel mode (made kernel head h))
        × ((kernel (made kernel head h) mode).errno ≢ none))
