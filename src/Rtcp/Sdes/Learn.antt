-- ===== src/Rtcp/Sdes/Learn.antt =====
-- What a source description that is laid out as it should be does to the descriptions.
use libnemesi.Common.{
  ℕ, zero, suc, ◌+◌, ◌*◌, ◌<◌, ◌≡◌, refl, ap, ◌∙◌, Bool, true, false, Option, none, some, List, [],
  ◌∷◌, arith, leb, ◌==◌, if◌then◌else◌, length, get_or, set,
}
use libnemesi.Packet.{bytes_at, Slot, byte}
use libnemesi.Rtp.State.{Member}
use libnemesi.Rtcp.Packet.{common_count, raw_len}
use libnemesi.Rtcp.Sdes.{
  descr, mem_same, renew_item, rtcp_set_ssrc_sdes, stopped, after_item, items_loop, ended,
  after_items, chunks_loop, done, after_chunks, rtcp_parse_sdes,
}

-- An item, its type and its text.
pub record Item : Type 0 where
  pub type : ℕ
  pub text : List ℕ

-- From `rsp` on the packet holds the items, before `end`, and a 0 behind them at `stop`.
abbrev pub Laid : Slot → ℕ → ℕ → List Item → ℕ → Type 0
Laid p end rsp [] stop = (byte p rsp ≡ 0) × (rsp ≡ stop)
Laid p end rsp (it ∷ its) stop =
    (byte p rsp ≡ it.type)
    × (0 < it.type)
    × (it.type < 9)
    × (byte p (rsp + 1) ≡ length it.text)
    × (bytes_at p (rsp + 2) (length it.text) ≡ it.text)
    × (rsp + length it.text + 2 < end)
    × Laid p end (rsp + length it.text + 2) its stop

-- The new text is the beginning of the old one.
abbrev pub is_kept : Option (List ℕ) → List ℕ → Bool
is_kept none text = false
is_kept (some str) text = mem_same str text

-- The descriptions after the items: each is stored under its type, where the one there does not
-- begin with the new text already.
abbrev pub learn : List Item → List (Option (List ℕ)) → List (Option (List ℕ))
learn [] sdes = sdes
learn (it ∷ its) sdes =
    learn its
      (if is_kept (get_or sdes it.type none) it.text then sdes else set sdes it.type (some it.text))

renew-learn :
    (it : Item) (sdes : List (Option (List ℕ))) (o : Option (List ℕ))
    → renew_item true it.type it.text sdes o
      ≡ descr 0 (if is_kept o it.text then sdes else set sdes it.type (some it.text))
unfolding renew_item
renew-learn it sdes none = refl
renew-learn it sdes (some str) = ground arith

set_ssrc-learn :
    (it : Item) (sdes : List (Option (List ℕ)))
    → it.type < 9
    → rtcp_set_ssrc_sdes true it.type it.text sdes
      ≡ descr 0 (
          if is_kept (get_or sdes it.type none) it.text
          then sdes
          else set sdes it.type (some it.text))
unfolding rtcp_set_ssrc_sdes
set_ssrc-learn it sdes h =
    let e : leb 9 it.type ≡ false = ground arith in
    rw e (renew-learn it sdes (get_or sdes it.type none))

items-stop :
    (p : Slot) (end fuel rsp : ℕ) (sdes : List (Option (List ℕ)))
    → byte p rsp ≡ 0
    → items_loop true p end (suc fuel) rsp sdes ≡ stopped rsp sdes
unfolding items_loop
items-stop p end fuel rsp sdes h = rw h refl

items-step :
    (p : Slot) (end fuel rsp type len : ℕ) (sdes : List (Option (List ℕ)))
    → byte p rsp ≡ type
    → byte p (rsp + 1) ≡ len
    → 0 < type
    → rsp + len + 2 < end
    → items_loop true p end (suc fuel) rsp sdes
      ≡ after_item
          (rtcp_set_ssrc_sdes true type (bytes_at p (rsp + 2) len) sdes)
          (λ sdes'. items_loop true p end fuel (rsp + len + 2) sdes')
unfolding items_loop
items-step p end fuel rsp type len sdes e l h b =
    let nonzero : (type == 0) ≡ false = ground arith in
    let before : leb end (rsp + len + 2) ≡ false = ground arith in rw (e, l, nonzero, before) refl

items-learn :
    (p : Slot) (end fuel rsp stop : ℕ) (its : List Item) (sdes : List (Option (List ℕ)))
    → Laid p end rsp its stop
    → rsp < end
    → end < fuel + rsp
    → items_loop true p end fuel rsp sdes ≡ stopped stop (learn its sdes)
unfolding after_item
items-learn p end zero rsp stop its sdes h b f = absurd (omega arith)
items-learn p end (suc fuel) rsp stop [] sdes h b f =
    items-stop p end fuel rsp sdes h.0 ∙ ap (λ k. stopped k sdes) h.1
items-learn p end (suc fuel) rsp stop (it ∷ its) sdes h b f =
    items-step p end fuel rsp it.type (length it.text) sdes h.0 h.3 h.1 h.5
    ∙ ap
        (λ t.
          after_item (rtcp_set_ssrc_sdes true it.type t sdes)
            (λ sdes'. items_loop true p end fuel (rsp + length it.text + 2) sdes'))
        h.4
    ∙ ap (λ r. after_item r (λ sdes'. items_loop true p end fuel (rsp + length it.text + 2) sdes'))
        (set_ssrc-learn it sdes h.2)
    ∙ items-learn p end fuel (rsp + length it.text + 2) stop its
        (if is_kept (get_or sdes it.type none) it.text
          then sdes
          else set sdes it.type (some it.text))
        h.6 h.5 (omega arith)

-- The end of the items of the packet at `w`, as the code computes it, and the place of the first.
abbrev pub items_end : Slot → ℕ → ℕ
items_end p w = 4 * (w + raw_len p w + 1)

abbrev pub first_item : ℕ → ℕ
first_item w = 4 * (w + 1) + 4

one_chunk :
    (p : Slot) (w stop : ℕ) (its : List Item) (sdes : List (Option (List ℕ)))
    → common_count p w ≡ 1
    → first_item w < items_end p w
    → Laid p (items_end p w) (first_item w) its stop
    → chunks_loop true p (items_end p w) (common_count p w) (w + 1) sdes
      ≡ ended true (learn its sdes)
unfolding chunks_loop after_items
one_chunk p w stop its sdes c b h =
    let before : leb (items_end p w) (first_item w) ≡ false = ground arith in
    let items =
      items-learn p (items_end p w) (items_end p w + 1) (first_item w) stop its sdes h b
        (omega arith) in
    rw (c, before, items) refl

-- Given memory, a packet of one chunk whose items have types from 1 to 8 and lie before the end that
-- the code computes, with a 0 behind them, is read whole: each item is stored under its type, in
-- order, unless the description there begins with the same bytes already. A source on probation
-- then needs one more packet only; nothing else of the source changes.
pub rtcp_parse_sdes-learn :
    {F : Type 0} (p : Slot) (w stop : ℕ) (its : List Item) (m : Member F)
    → common_count p w ≡ 1
    → first_item w < items_end p w
    → Laid p (items_end p w) (first_item w) its stop
    → rtcp_parse_sdes true p w m
      ≡ done 0 (record m {
        ssrc_sdes = learn its m.ssrc_sdes;
        ssrc_stats =
            if m.ssrc_stats.probation == 0
            then m.ssrc_stats
            else record (m.ssrc_stats) { probation = 1 };
      })
unfolding rtcp_parse_sdes after_chunks
rtcp_parse_sdes-learn p w stop its m c b h =
    ap (after_chunks m) (one_chunk p w stop its m.ssrc_sdes c b h) ∙ ground arith
