-- ===== src/Solaris/Fresh.antt =====
-- A device that is returned by the code of tun_solaris.go was not closed.
use subpass.Base.{ℕ, ◌≡◌, arith, false}
use subpass.Base.Int.{ℤ}
use subpass.Go.Kernel.{Kernel, History, Call, Ioctl, made}
use subpass.Go.Kernel.Inversion.{Returns}
use subpass.Solaris.Reader.{TunDevice}
use subpass.Solaris.{
  Config, finish, link_up, set_up, create_tun_device, open_tun_device, tun_new_ppa, asked_ppa,
  tun_module_char_path, ip_module_path,
}
use subpass.Solaris.Index.{get_tun_index}
use subpass.Go.Result.{Result-cases}
use subpass.Base.{inl, inr}

module _ (kernel : Kernel) (config : Config) where
  link_up-closed :
      (ip_fd data_fd link_fd skppa : ℕ) (h h' : History) {t : TunDevice}
      → Returns (link_up kernel config ip_fd data_fd link_fd skppa) h t h'
      → t.closed ≡ false
  unfolding link_up finish
  link_up-closed ip_fd data_fd link_fd skppa h h' e = ground arith

  -- The calls before `link_up` and what they lead to.
  set_up-closed :
      (ppa : ℤ) (ip_fd data_fd : ℕ) (h h' : History) {t : TunDevice}
      → Returns (set_up kernel config ppa ip_fd data_fd) h t h'
      → t.closed ≡ false
  unfolding set_up tun_new_ppa
  set_up-closed ppa ip_fd data_fd h h' {t} e =
      let asking = Call.ioctl data_fd (Ioctl.tunnewppa (asked_ppa ppa)) in
      let opening = Call.open_file tun_module_char_path in
      let h1 = made kernel asking h in
      ground (
        arith,
        link_up-closed ip_fd data_fd (kernel h1 opening).value (kernel h asking).value
            (made kernel opening h1) h' {t = t},
      )

  pub open_tun_device-closed :
      (h h' : History) {t : TunDevice}
      → Returns (open_tun_device kernel config) h t h'
      → t.closed ≡ false
  unfolding open_tun_device create_tun_device
  open_tun_device-closed h h' {t} e = elim (Result-cases (get_tun_index config.name)) [
    | inl (ppa, named) ↦
        let first = Call.open_file ip_module_path in
        let second = Call.open_file tun_module_char_path in
        let h1 = made kernel first h in
        let h2 = made kernel second h1 in
        let ip_fd = (kernel h first).value in
        let data_fd = (kernel h1 second).value in
        let last =
          set_up-closed ppa ip_fd data_fd h2 (set_up kernel config ppa ip_fd data_fd h2).1
            {t = t} in
        ground (arith, last)
    | inr (inl (x, bad)) ↦ ground arith
    | inr (inr bad) ↦ ground arith
  ]
