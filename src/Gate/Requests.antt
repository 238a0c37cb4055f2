-- ===== src/Gate/Requests.antt =====
-- The outcomes of `nlif_gate_load_link_byidx` and `nlif_gate_load_link_byname`.
use nlif.Prelude.{ℕ, ◌≡◌, refl, ◌⊎◌, inl, inr, none, some, List}
use nlif.Errno.{ok, err, Result-cases}
use nlif.Link.{Link}
use nlif.Ynl.{GetReq, getlink, Ynl}
use nlif.World.{World, done, fail, log_call}
use nlif.Gate.{islink_valid, ynl_err, send_getlink, load_link_byidx, load_link_byname}

-- The requests of `nlif_gate_load_link_byidx` and of `nlif_gate_load_link_byname`, without statistics.
abbrev pub index_req : ℕ → GetReq
index_req index = record { ifi_index = index; ifname = none; ext_mask = 8 }

abbrev pub name_req : List ℕ → GetReq
name_req name = record { ifi_index = 0; ifname = some name; ext_mask = 8 }

module _ (Y : Ynl) (w : World) where
  abbrev pub asked : GetReq → World
  asked req = log_call (getlink req) w

  -- The kernel answers with a link, which is valid.
  abbrev pub Answers : GetReq → Link → Type 0
  Answers req lnk = (Y.on_getlink w.calls req ≡ ok lnk) × (islink_valid lnk ≡ ok tt)

  send_getlink-cases :
      (req : GetReq)
      → ((lnk : Link) × (send_getlink Y req w ≡ done lnk (asked (record req { ext_mask = 8 })))
          × Answers (record req { ext_mask = 8 }) lnk)
        ⊎ ((e : ℕ) × (send_getlink Y req w ≡ fail e (asked (record req { ext_mask = 8 }))))
  unfolding send_getlink
  send_getlink-cases req =
      elim (Result-cases (Y.on_getlink w.calls (record req { ext_mask = 8 }))) [
        | inr (code, e) ↦ inr (ynl_err Y code, rw e refl)
        | inl (lnk, e) ↦ elim (Result-cases (islink_valid lnk)) [
          | inl (tt, valid) ↦ inl (lnk, rw (e, valid), (e, valid))
          | inr (code, invalid) ↦ inr (code, rw (e, invalid))
        ]
      ]

  pub load_link_byidx-cases :
      (index : ℕ)
      → ((lnk : Link) × (load_link_byidx Y index w ≡ done lnk (asked (index_req index)))
          × Answers (index_req index) lnk)
        ⊎ ((e : ℕ) × (load_link_byidx Y index w ≡ fail e (asked (index_req index))))
  unfolding load_link_byidx
  load_link_byidx-cases index =
      send_getlink-cases (record { ifi_index = index; ifname = none; ext_mask = 0 })

  pub load_link_byname-cases :
      (name : List ℕ)
      → ((lnk : Link) × (load_link_byname Y name w ≡ done lnk (asked (name_req name)))
          × Answers (name_req name) lnk)
        ⊎ ((e : ℕ) × (load_link_byname Y name w ≡ fail e (asked (name_req name))))
  unfolding load_link_byname
  load_link_byname-cases name =
      send_getlink-cases (record { ifi_index = 0; ifname = some name; ext_mask = 0 })

  module _ (index : ℕ) where
    pub load_link_byidx-refused :
        (code : ℕ)
        → Y.on_getlink w.calls (index_req index) ≡ err code
        → load_link_byidx Y index w ≡ fail (ynl_err Y code) (asked (index_req index))
    unfolding load_link_byidx send_getlink
    load_link_byidx-refused code e = rw e refl

    pub load_link_byidx-accepted :
        (lnk : Link)
        → Answers (index_req index) lnk
        → load_link_byidx Y index w ≡ done lnk (asked (index_req index))
    unfolding load_link_byidx send_getlink
    load_link_byidx-accepted lnk (e, valid) = rw (e, valid)
