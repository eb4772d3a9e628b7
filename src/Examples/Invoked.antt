-- ===== src/Examples/Invoked.antt =====
-- Generated methods in the small world.
use my_grpc_extensions.Prelude.{codes}
use my_grpc_extensions.Proto.Service.{ProtoRpc}

abbrev greeting : ProtoRpc
greeting = record {
  name = codes "Greet";
  input_param = codes "Name";
  output_param = codes "Greeting";
}
