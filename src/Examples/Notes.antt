-- ===== src/Examples/Notes.antt =====
-- An inbox of two notes.
use agex_ts.Prelude.{◌≡◌, Str, codes, none, [], ◌∷◌, ◌++◌}
use agex_ts.World.Inbox.{
  Note, NoteOptions, Inbox, new_inbox, put, deliver_now, drain, restore, render, default_frame,
  split,
}
use agex_ts.World.Inbox.Counts.{
  IsSound, Moves, none_yet, then_move, put_note, deliver_note, Moves-IsSound,
}
use agex_ts.World.Inbox.Moves.{restore-drain}
use agex_ts.World.Inbox.Block.{split-append}

abbrev plain : NoteOptions Str
plain = record { kind = none; label = none; job = none; answer = none }

abbrev first : Note Str × Inbox Str
first = put new_inbox (codes "stop") plain 5

abbrev second : Note Str × Inbox Str
second = deliver_now first.1 (codes "go on") plain 6

-- one note is queued, one was delivered
moves : Moves {Answer = Str} new_inbox second.1
moves =
    then_move (then_move none_yet (put_note new_inbox (codes "stop") plain 5))
      (deliver_note first.1 (codes "go on") plain 6)

Moves-IsSound_example : IsSound second.1
Moves-IsSound_example = Moves-IsSound moves

restore-drain_example : restore (drain second.1).1 (drain second.1).0 ≡ second.1
restore-drain_example = restore-drain second.1 (Moves-IsSound moves)

-- The text ends in what looks like a block.
abbrev text : Str
text = codes "out\n---- /inbox:3 ----"

split-append_example :
    let block = render (first.0 ∷ second.0 ∷ []) default_frame in
    split (text ++ block) ≡ (text, block)
split-append_example = split-append text first.0 (second.0 ∷ []) default_frame
