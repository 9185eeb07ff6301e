-- ===== src/Traffic/Modes/Laws.antt =====
-- A cycle through the write modes as a conversation.
use ritex.Base.{
  ℕ, ◌+◌, ◌≡◌, refl, sym, ap, ◌∙◌, Bool, true, false, none, some, List, [], ◌∷◌, ◌++◌,
  if◌then◌else◌, get_or, length, All, IsByte, append-nil, ==_refl,
}
use ritex.Protocol.{type_ack, is_length_matches, scan}
use ritex.Protocol.Req
use ritex.Protocol.Ack
use ritex.Packet.{set_cmd_mode, msb, lsb}
use ritex.Port.{Port, PortM, ◌>>=◌, return, ok}
use ritex.Device.Reports.{OffsetTableEntry, DbDataPacket, report_data_packet}
use ritex.Traffic.Exchange.{received, change_mode, change_mode_result}
use ritex.Traffic.Exchange.Laws.{
  Ready, Yields, raw_request, raw_reply, reply_as_read, bind_ok, exchange, exchange_then, then_sent,
}
use ritex.Traffic.Modes.{
  target, is_skipped, Reports, and_reports, go_on, report_mode, in_mode, cycle_modes,
}

-- What the station answers in round i: all settings, and its information.
module _ (table : List OffsetTableEntry) (mode : ℕ) (settings infos : ℕ → List ℕ) where
  abbrev mode_request : ℕ → List ℕ
  mode_request i = raw_request Req.setting_set (45 ∷ msb (target mode i) ∷ lsb (target mode i) ∷ [])

  -- The line of one round, and what is written in it.
  abbrev round_line : ℕ → List ℕ → List ℕ
  round_line i rest =
      mode_request i
      ++ (raw_reply Ack.all_settings (settings i)
          ++ (raw_request Req.info [] ++ (raw_reply Ack.info (infos i) ++ rest)))

  abbrev round_sent : ℕ → List ℕ
  round_sent i = mode_request i ++ raw_request Req.info []

  -- The settings of the reply show the new mode, the lengths are accepted, and no entry of the table
  -- is read behind the data of the information, marked with the mode as it is.
  pub record Answers (i : ℕ) : Type 0 where
    pub settings_bytes : All IsByte (settings i)
    pub settings_length : length (settings i) ≡ 47
    pub in_target : get_or (settings i) 22 0 ≡ target mode i
    pub info_bytes : All IsByte (infos i)
    pub info_length : is_length_matches Ack.info (length (infos i) + 1) ≡ some type_ack
    pub inside :
        (timestamp : ℕ)
        → (es : List DbDataPacket) × (report_data_packet table
              (set_cmd_mode (reply_as_read mode timestamp Ack.info (infos i)) (target mode i))
            ≡ some es)

  -- The rounds that are not skipped are answered.
  abbrev AnswersUnless : Bool → ℕ → Type 0
  AnswersUnless true i = Unit
  AnswersUnless false i = Answers i

  abbrev pub AllAnswer : Bool → List ℕ → Type 0
  AllAnswer is_auto [] = Unit
  AllAnswer is_auto (i ∷ is) = AnswersUnless (is_skipped is_auto mode i) i × AllAnswer is_auto is

  changed :
      (i : ℕ) (rest : List ℕ) (p : Port)
      → Answers i
      → Ready (mode_request i ++ (raw_reply Ack.all_settings (settings i) ++ rest)) p
      → Yields (true, none) (mode_request i) rest p (change_mode mode (target mode i) p)
  unfolding change_mode
  changed i rest p a ready =
      let (t, (q, same, ready_q, sent_q)) =
        exchange mode Req.setting_set Ack.all_settings
          (45 ∷ msb (target mode i) ∷ lsb (target mode i) ∷ []) (settings i) rest p
          (change_mode_result (target mode i)) ready a.settings_bytes
          (rw a.settings_length (unfold is_length_matches scan in refl)) in
      (
        q,
        same ∙ ap (λ (b : Bool). ok (b, none) q) (rw a.in_target (==_refl (target mode i))),
        ready_q,
        sent_q,
      )

  -- The bytes of a packet stay when its command is marked.
  reported :
      (i timestamp : ℕ) (rest : PortM Reports) (sent coming : List ℕ) (q : Port)
      (more : List DbDataPacket)
      → Answers i
      → Yields (some more) sent coming q (rest q)
      → (reports : List DbDataPacket) × Yields (some reports) sent coming q (
          report_mode table
            (target mode i)
            rest
            (received (reply_as_read mode timestamp Ack.info (infos i)))
            q)
  reported i timestamp rest sent coming q more a (r, same, ready, written) =
      let (es, inside) = a.inside timestamp in
      (
        es ++ more,
        (
          r,
          ap (λ o. go_on o rest q) inside
              ∙ bind_ok rest (λ later. return (and_reports (some es) later)) same,
          ready,
          written,
        ),
      )

  abbrev pub cycle_line : Bool → List ℕ → List ℕ → List ℕ
  cycle_line is_auto [] rest = rest
  cycle_line is_auto (i ∷ is) rest =
      let later = cycle_line is_auto is rest in
      if is_skipped is_auto mode i then later else round_line i later

  abbrev pub cycle_sent : Bool → List ℕ → List ℕ
  cycle_sent is_auto [] = []
  cycle_sent is_auto (i ∷ is) =
      let later = cycle_sent is_auto is in
      if is_skipped is_auto mode i then later else round_sent i ++ later

  -- One round, in front of the others.
  round :
      (i : ℕ) (rest : PortM Reports) (sent coming after : List ℕ) (p : Port)
      → Answers i
      → Ready (round_line i coming) p
      → ((q : Port)
          → Ready coming q
          → (more : List DbDataPacket) × Yields (some more) sent after q (rest q))
      → (reports : List DbDataPacket) × Yields
          (some reports)
          (round_sent i ++ sent)
          after
          p
          ((change_mode mode (target mode i) >>= λ r. in_mode table mode (target mode i) rest r) p)
  round i rest sent coming after p a ready later =
      let (q, set, ready_q, sent_q) = changed i _ p a ready in
      let (timestamp, r, told, ready_r, sent_r) =
        exchange_then mode Req.info Ack.info [] (infos i) coming q
          (report_mode table (target mode i) rest) ready_q a.info_bytes a.info_length in
      let (more, yields) = later r ready_r in
      let (reports, (s, same, ready_s, sent_s)) =
        reported i timestamp rest sent after r more a yields in
      (
        reports,
        (
          s,
          bind_ok (change_mode mode (target mode i)) (in_mode table mode (target mode i) rest) set
              ∙ told
              ∙ same,
          ready_s,
          then_sent p r s (round_sent i) sent
              (then_sent p q r (mode_request i) (raw_request Req.info []) sent_q sent_r) sent_s,
        ),
      )

  round_or_skip :
      (i : ℕ) (rest : PortM Reports) (sent coming after : List ℕ) (p : Port)
      → (skip : Bool) → AnswersUnless skip i
      → Ready (if skip then coming else round_line i coming) p
      → ((q : Port)
          → Ready coming q
          → (more : List DbDataPacket) × Yields (some more) sent after q (rest q))
      → (reports : List DbDataPacket) × Yields
          (some reports)
          (if skip then sent else round_sent i ++ sent)
          after
          p
          ((if skip
              then rest
              else (change_mode mode (target mode i) >>= λ r.
                  in_mode table mode (target mode i) rest r))
            p)
  round_or_skip i rest sent coming after p true a ready later = later p ready
  round_or_skip i rest sent coming after p false a ready later =
      round i rest sent coming after p a ready later

  -- A cycle through write modes: on a line that waits for no echo, where in each round that is not
  -- skipped the setting of the mode and the request for information are echoed and answered, the
  -- settings of the answer show the mode and no entry of the offset table is read behind the data,
  -- the cycle runs to its end, it writes these requests in the order of the rounds, and no others,
  -- and leaves what follows on the line.
  pub cycle_modes_lem :
      (is_auto : Bool) (is rest : List ℕ) (p : Port)
      → AllAnswer is_auto is
      → Ready (cycle_line is_auto is rest) p
      → (reports : List DbDataPacket) × Yields
          (some reports)
          (cycle_sent is_auto is)
          rest
          p
          (cycle_modes table is_auto mode is p)
  unfolding cycle_modes
  cycle_modes_lem is_auto [] rest p all ready = ([], (p, refl, ready, sym (append-nil p.written)))
  cycle_modes_lem is_auto (i ∷ is) rest p (a, all) ready =
      round_or_skip i (cycle_modes table is_auto mode is) (cycle_sent is_auto is)
        (cycle_line is_auto is rest) rest p (is_skipped is_auto mode i) a ready
        λ q ready_q. cycle_modes_lem is_auto is rest q all ready_q
