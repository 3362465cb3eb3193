-- ===== src/Examples/Messages.antt =====
-- Runs of the reads and writes of messages.
use mclog.Base.{◌≡◌, refl, true, [], ◌∷◌, ◌++◌, some, none}
use mclog.Message.{
  write_message, read_message, read_header, is_valid_hostname, is_valid_app_name, is_host_char,
  is_app_char,
}
use mclog.Message.RoundTrip.{is_acceptable, read_message-write_message}
use mclog.Examples.{io, io-IsSound, hello, hello-Fits}

pub hello-is_acceptable : is_acceptable hello ≡ true
unfolding is_valid_hostname is_valid_app_name is_host_char is_app_char
hello-is_acceptable = refl

read_message-write_message_example :
    read_message io (write_message io hello ++ 1 ∷ 2 ∷ []) ≡ some (hello, 1 ∷ 2 ∷ [])
unfolding is_valid_hostname is_valid_app_name is_host_char is_app_char
read_message-write_message_example =
    read_message-write_message io hello (1 ∷ 2 ∷ []) io-IsSound hello-Fits

pub nothing_read : read_message io [] ≡ none
unfolding read_message read_header
nothing_read = refl
