-- ===== src/Examples/Inis.antt =====
-- Whole event files of one service.
use sa_excutor.Common.{◌≡◌, refl, arith, codes, List, [], ◌∷◌, some, true}
use sa_excutor.Event.Parser.{read_ini_file, fresh_params}
use sa_excutor.Event.File.{trim_space_char}
use sa_excutor.Common.{Str, none, done, false}
use sa_excutor.Common.Bytes.{replicate}
use sa_excutor.Service.Info.{c_str}
use sa_excutor.Wire.Params.{to_ulong}
use sa_excutor.Event.Writer.{Disk, write_ini_file}
use sa_excutor.Event.Reread.{Item, reread_all}
use sa_excutor.Event.Rewrite.{events_of, read-write_ini_file}
use sa_excutor.Examples.{command}
use sa_excutor.Event.Blocks.{Block, declare_all, file_lines, ends}
use sa_excutor.Event.Content.{join, read_ini_file-join}
use sa_excutor.Examples.Files.{process, tables, empty_parser}

abbrev blocks : List Block
blocks =
    record {
      first = b'l';
      name = codes "og";
      command = codes "logcat";
      attrs = codes "user 0" ∷ codes "trigger boot" ∷ [];
      end = [];
    }
    ∷ []

read_ini_file-join_example :
    read_ini_file process tables (some (codes "log logcat\nuser 0\ntrigger boot\n\n")) empty_parser
    ≡ (declare_all process tables blocks empty_parser, true)
unfolding file_lines join ends trim_space_char
read_ini_file-join_example =
    read_ini_file-join process tables blocks empty_parser
      (
        (
          ((refl, refl), ((refl, refl), ((refl, refl), tt))),
          refl,
          (refl, (refl, tt)),
          refl,
          (
            (
              (refl, (refl, (refl, (refl, (refl, (refl, (refl, (refl, (refl, (refl, tt)))))))))),
              omega arith,
            ),
            (
              ((refl, (refl, (refl, (refl, (refl, (refl, tt)))))), omega arith),
              (
                (
                  (
                    refl,
                    (
                      refl,
                      (
                        refl,
                        (refl, (refl, (refl, (refl, (refl, (refl, (refl, (refl, (refl, tt))))))))),
                      ),
                    ),
                  ),
                  omega arith,
                ),
                ((tt, omega arith), tt),
              ),
            ),
          ),
        ),
        tt,
      )
      refl

abbrev disk : Disk
disk = record { exists = false; opens = false; stream_opens = true; int_of_char = λ c. c }

abbrev items : List Item
items =
    record {
      cmd = command 0 5 [];
      first = b'l';
      name = codes "og";
      command = codes "logcat";
      params = record (fresh_params tables) {
        uid = codes "root";
        gid = codes "log";
        seclabel = codes "u:r";
      };
      started = true;
    }
    ∷ []

read-write_ini_file_example :
    (content : Str) × (write_ini_file disk (events_of items) none ≡ done (some content, true))
    × (read_ini_file process tables (some content) empty_parser
        ≡ (reread_all process tables items empty_parser, true))
unfolding c_str to_ulong replicate
read-write_ini_file_example =
    read-write_ini_file disk process tables items none empty_parser
      (
        (
          ((refl, refl), ((refl, refl), ((refl, refl), tt))),
          refl,
          (refl, refl, refl, refl, refl),
          (
            (refl, (refl, (refl, (refl, tt)))),
            (refl, (refl, (refl, tt))),
            (refl, (refl, (refl, tt))),
          ),
          refl,
          omega arith,
          omega arith,
          (
            (
              (refl, (refl, (refl, (refl, (refl, (refl, (refl, (refl, (refl, (refl, tt)))))))))),
              omega arith,
            ),
            (
              (
                (
                  refl,
                  (
                    refl,
                    (refl, (refl, (refl, (refl, (refl, (refl, (refl, (refl, (refl, tt))))))))),
                  ),
                ),
                omega arith,
              ),
              (
                (
                  (
                    refl,
                    (
                      refl,
                      (refl, (refl, (refl, (refl, (refl, (refl, (refl, (refl, (refl, tt))))))))),
                    ),
                  ),
                  omega arith,
                ),
                (
                  (
                    (
                      refl,
                      (
                        refl,
                        (
                          refl,
                          (
                            refl,
                            (
                              refl,
                              (
                                refl,
                                (refl, (refl, (refl, (refl, (refl, (refl, (refl, (refl, tt)))))))),
                              ),
                            ),
                          ),
                        ),
                      ),
                    ),
                    omega arith,
                  ),
                  (
                    (
                      (
                        refl,
                        (
                          refl,
                          (
                            refl,
                            (
                              refl,
                              (
                                refl,
                                (
                                  refl,
                                  (
                                    refl,
                                    (refl, (refl, (refl, (refl, (refl, (refl, (refl, tt))))))),
                                  ),
                                ),
                              ),
                            ),
                          ),
                        ),
                      ),
                      omega arith,
                    ),
                    ((tt, omega arith), tt),
                  ),
                ),
              ),
            ),
          ),
        ),
        tt,
      )
      (refl, refl) refl
