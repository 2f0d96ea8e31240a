-- ===== src/Eth/Channel.antt =====
-- What the sender promises: a channel that keeps the order of the messages and loses none.
use mathlib.Core.List.{append_assoc, append-nil}
use drivebrain_software.Base.{◌≡◌, ap, sym, ◌∙◌, List, [], ◌∷◌, ◌++◌}

pub record Channel (M : Type 0) : Type 0 where
  pub waiting : List M
  pub delivered : List M

abbrev pub empty : (M : Type 0) → Channel M
empty M = record { waiting = []; delivered = [] }

-- A message comes in at the back, or the one at the front is delivered, or nothing changes.
pub data ChannelStep {M : Type 0} (c : Channel M) : List M → Channel M → Type 0 where
  puts :
      (m : M) {d : Channel M}
      → d ≡ record c { waiting = c.waiting ++ (m ∷ []) }
      → ChannelStep c (m ∷ []) d
  delivers :
      (m : M) (rest : List M) {d : Channel M}
      → c.waiting ≡ m ∷ rest
      → d ≡ record { waiting = rest; delivered = c.delivered ++ (m ∷ []) }
      → ChannelStep c [] d
  stays : {d : Channel M} → d ≡ c → ChannelStep c [] d

pub data ChannelReach {M : Type 0} (c : Channel M) : List M → Channel M → Type 0 where
  here : ChannelReach c [] c
  next :
      {d e : Channel M} {ms new all : List M}
      → ChannelReach c ms d
      → ChannelStep d new e
      → all ≡ ms ++ new
      → ChannelReach c all e

-- All the messages that the channel has had, oldest first.
abbrev pub contents : {M : Type 0} → Channel M → List M
contents c = c.delivered ++ c.waiting

pub ChannelStep-contents :
    {M : Type 0} {c d : Channel M} {new : List M}
    → ChannelStep c new d
    → contents d ≡ contents c ++ new
ChannelStep-contents {c = c} {d = d} (puts m e) =
    ap contents e ∙ sym (append_assoc c.delivered c.waiting (m ∷ []))
ChannelStep-contents {c = c} {d = d} (delivers m rest front e) =
    ap contents e
    ∙ append_assoc c.delivered (m ∷ []) rest
    ∙ ap (λ l. c.delivered ++ l) (sym front)
    ∙ sym (append-nil (contents c))
ChannelStep-contents {c = c} {d = d} (stays e) = ap contents e ∙ sym (append-nil (contents c))

pub ChannelReach-contents :
    {M : Type 0} {c d : Channel M} {all : List M}
    → ChannelReach c all d
    → contents d ≡ contents c ++ all
ChannelReach-contents {c = c} here = sym (append-nil (contents c))
ChannelReach-contents {c = c} (next {ms = ms} {new = new} r step e) =
    ChannelStep-contents step
    ∙ ap (λ l. l ++ new) (ChannelReach-contents r)
    ∙ append_assoc (contents c) ms new
    ∙ ap (λ l. contents c ++ l) (sym e)
